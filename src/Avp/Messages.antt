-- ===== src/Avp/Messages.antt =====
-- The messages that l2tpns.c sends, as the writers make them. `t` is this end's number of the
-- tunnel, and `s` of the session.
use l2tpns.Prelude.{
  ℕ, ◌+◌, ◌==◌, List, ◌++◌, Option, none, some, true, not, ltb, if◌then◌else◌, length, take,
}
use l2tpns.Avp.{put16, control16, control32, controls, controlb, controlnew}

abbrev pub with_response : Option (List ℕ) → List ℕ → List ℕ
with_response none c = c
with_response (some response) c = controlb c 13 (take 16 response) true

unfoldable pub sccrp : ℕ → List ℕ → Option (List ℕ) → ℕ → List ℕ
unfolding control16 control32 controls controlb controlnew
sccrp version hostname sendchalresponse t =
    let c = control32 (control16 (controlnew 2) 2 version true) 3 3 true in
    control16 (with_response sendchalresponse (controls c 7 hostname true)) 9 t true

unfoldable pub scccn : ℕ → List ℕ → List ℕ → Option (List ℕ) → ℕ → List ℕ
unfolding control16 control32 controls controlb controlnew
scccn version hostname vendor_name sendchalresponse t =
    let c = controls (controls (controlnew 3) 7 hostname true) 8 vendor_name true in
    let c' = control32 (control16 c 2 version true) 3 3 true in
    control16 (with_response sendchalresponse c') 9 t true

-- The value of the result code with an error; `msg` is empty where it is NULL.
abbrev pub error_value : ℕ → ℕ → List ℕ → List ℕ
error_value result error msg =
    put16 result ++ put16 error ++ take (if ltb 64 (length msg + 4) then 60 else length msg) msg

unfoldable pub stopccn : ℕ → ℕ → List ℕ → ℕ → List ℕ
unfolding control16 controlb controlnew
stopccn result error msg t =
    let c = controlnew 4 in
    let c' =
      if not (error == 0)
      then controlb c 1 (error_value result error msg) true
      else control16 c 1 result true in
    control16 c' 9 t true

unfoldable pub icrp : ℕ → List ℕ
unfolding control16 controlnew
icrp s = control16 (controlnew 11) 14 s true

unfoldable pub iccn : List ℕ
unfolding control32 controlnew
iccn = control32 (control32 (controlnew 12) 19 1 true) 24 10000000 true

unfoldable pub hello : List ℕ
unfolding controlnew
hello = controlnew 6
