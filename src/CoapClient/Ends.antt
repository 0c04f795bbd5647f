-- ===== src/CoapClient/Ends.antt =====
-- A response, and the end of a request, keep libcoap's contexts in balance.
use atlas_client.Prelude.{
  ℕ, ◌+◌, ◌≡◌, refl, Bool, some, List, [], ◌∷◌, ℤ, arith, inl, inr, Option-cases,
}
use atlas_client.Scheduler.{del_entry}
use atlas_client.CoapClient.{Request, Client}
use atlas_client.CoapClient.Receive.{
  Received, message_handler, mark_request, finish_request, find_by_fd, remove_by_fd, drop_timed_out,
  find_by_alarm, remove_by_alarm,
}
use atlas_client.CoapClient.Balance.{IsBalanced, owned, alarm_cancel_counts}

owned-mark_request :
    (weight : ℕ → ℕ) (ctx session : ℕ) (rs : List Request)
    → owned weight (mark_request ctx session rs) ≡ owned weight rs
unfolding mark_request
owned-mark_request weight ctx session [] = refl
owned-mark_request weight ctx session (r ∷ rs) =
    ground (arith, owned-mark_request weight ctx session rs)

-- A response keeps the balance: the request stays in the list, dirty.
pub message_handler-IsBalanced :
    (ctx session : ℕ) (sent : Bool) (received : Received) (c : Client)
    → IsBalanced c
    → IsBalanced (message_handler ctx session sent received c).0
unfolding message_handler
message_handler-IsBalanced ctx session sent received c h weight =
    ground (arith, h weight, owned-mark_request weight ctx session c.reqs)

owned-remove_by_fd :
    (weight : ℕ → ℕ) (fd : ℤ) (rs : List Request) (p : Request)
    → find_by_fd fd rs ≡ some p
    → owned weight rs ≡ owned weight (remove_by_fd fd rs) + weight p.ctx
unfolding find_by_fd remove_by_fd
owned-remove_by_fd weight fd [] p h = cc
owned-remove_by_fd weight fd (r ∷ rs) p h = ground (arith, owned-remove_by_fd weight fd rs p)

owned-remove_by_alarm :
    (weight : ℕ → ℕ) (id : ℤ) (rs : List Request) (p : Request)
    → find_by_alarm id rs ≡ some p
    → owned weight rs ≡ owned weight (remove_by_alarm id rs) + weight p.ctx
unfolding find_by_alarm remove_by_alarm
owned-remove_by_alarm weight id [] p h = cc
owned-remove_by_alarm weight id (r ∷ rs) p h = ground (arith, owned-remove_by_alarm weight id rs p)

-- The end of a request that was answered keeps the balance.
pub finish_request-IsBalanced :
    (fd : ℤ) (c : Client) → IsBalanced c → IsBalanced (finish_request fd c)
unfolding finish_request
finish_request-IsBalanced fd c h weight = elim (Option-cases (find_by_fd fd c.reqs)) [
  | inl absent ↦ ground (arith, absent, h weight)
  | inr (p, found) ↦ ground (
    arith,
    found,
    h weight,
    owned-remove_by_fd weight fd c.reqs p found,
    alarm_cancel_counts weight p.alarm_id (record c.timers { sched = del_entry fd c.timers.sched }),
  )
]

-- So does the end of one that timed out.
pub drop_timed_out-IsBalanced :
    (id : ℤ) (c : Client) → IsBalanced c → IsBalanced (drop_timed_out id c)
unfolding drop_timed_out
drop_timed_out-IsBalanced id c h weight = elim (Option-cases (find_by_alarm id c.reqs)) [
  | inl absent ↦ ground (arith, absent, h weight)
  | inr (p, found) ↦ ground (arith, found, h weight, owned-remove_by_alarm weight id c.reqs p found)
]
