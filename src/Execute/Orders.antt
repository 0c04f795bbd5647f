-- ===== src/Execute/Orders.antt =====
-- What becomes of an order: the alarms that it sets, and the answer that the gateway gets.
use atlas_client.Prelude.{
  sym, pos, negsuc, ℕ, ◌≡◌, ◌≢◌, inl, inr, refl, ap, ◌∙◌, true, false, some, List, [], ◌∷◌, ◌++◌,
  map, append_assoc, append-nil, arith, All, is_neg, ◌==◌, Bool-cases, if◌then◌else◌, ℤ,
}
use atlas_client.Status.{
  Status, ok, corrupted_command_execution_payload, resp_ok, not_acceptable_here, unknown,
}
use atlas_client.Callbacks.{AlarmCallback, execute_restart_alarm, execute_shutdown_alarm}
use atlas_client.Environment.{Environment, History}
use atlas_client.Alarm.{AlarmEntry, Timers, alarm_set}
use atlas_client.Alarm.Cases.{alarm_set_cases, with_alarm}
use atlas_client.Commands.{Cmd}
use atlas_client.Commands.Types
use atlas_client.Commands.Wire.{encode, IsByte, IsCmd}
use atlas_client.Commands.Iterate.{read_all_cases, read_all-encode}
use atlas_client.World.{World}
use atlas_client.Execute.{
  in_progress, schedule, execute_one, execute_all, execution_parsed, execution_bytes,
  execution_parse, response_to, execute_command_cb,
}

-- The callbacks of the alarms that are set, in order.
abbrev pub set_callbacks : World → List AlarmCallback
set_callbacks w = map (λ (p : AlarmEntry). p.callback) w.client.timers.alarms

-- What a command orders.
abbrev pub ordered_by : ℕ → List AlarmCallback
ordered_by type =
    if type == Types.device_restart
    then execute_restart_alarm ∷ []
    else if type == Types.device_shutdown
    then execute_shutdown_alarm ∷ []
    else []

abbrev pub orders : List Cmd → List AlarmCallback
orders [] = []
orders (c ∷ cs) = ordered_by c.type ++ orders cs

-- The kernel gives a timer and arms it, whenever it is asked.
pub record HasTimers (env : Environment) : Type 0 where
  pub created : (h : History) → is_neg (env.timerfd_create h) ≡ false
  pub armed : (h : History) → is_neg (env.timerfd_settime h) ≡ false

map-append : {A B : Type 0} (f : A → B) (xs ys : List A) → map f (xs ++ ys) ≡ map f xs ++ map f ys
map-append f [] ys = refl
map-append f (x ∷ xs) ys = ap (λ zs. f x ∷ zs) (map-append f xs ys)

module _ (env : Environment) where
  -- With timers an alarm is set.
  alarm_set-HasTimers :
      (cb : AlarmCallback) (t : Timers)
      → HasTimers env
      → ((h : History) × (alarm_set env 10 cb true t ≡ (
        env.timerfd_create t.history,
        with_alarm h (env.timerfd_create t.history) cb true t,
      )))
  alarm_set-HasTimers cb t timers = elim (alarm_set_cases env 10 cb true t) [
    | inl (_, failed) ↦ absurd (cc (ap is_neg failed, timers.created t.history))
    | inr (inl (_, failed)) ↦ absurd (cc (failed, timers.armed _))
    | inr (inr (e, _)) ↦ (_, e)
  ]

  in_progress-set :
      (fd : ℤ) (h : History) (cb : AlarmCallback) (w : World)
      → is_neg fd ≡ false
      → (set_callbacks (in_progress (fd, with_alarm h fd cb true w.client.timers) w)
          ≡ set_callbacks w ++ cb ∷ [])
        × ((in_progress (fd, with_alarm h fd cb true w.client.timers) w).cmd_in_progress ≡ true)
  unfolding in_progress
  in_progress-set (pos n) h cb w fresh =
      (map-append (λ (p : AlarmEntry). p.callback) w.client.timers.alarms _, refl)
  in_progress-set (negsuc n) h cb w fresh = absurd (cc fresh)

  schedule-set_callbacks :
      (cb : AlarmCallback) (w : World)
      → HasTimers env
      → (set_callbacks (schedule env cb w) ≡ set_callbacks w ++ cb ∷ [])
        × ((schedule env cb w).cmd_in_progress ≡ true)
  unfolding schedule
  schedule-set_callbacks cb w timers =
      let (h, e) = alarm_set-HasTimers cb w.client.timers timers in
      rw e (in_progress-set _ h cb w (timers.created w.client.timers.history))

  -- A command's order is deferred behind no other: its alarm is set.
  execute_one-set_callbacks :
      (type : ℕ) (w : World)
      → HasTimers env
      → (set_callbacks (execute_one env type w) ≡ set_callbacks w ++ ordered_by type)
        × (ordered_by type ≢ [] → (execute_one env type w).cmd_in_progress ≡ true)
  unfolding execute_one
  execute_one-set_callbacks type w timers = elim (Bool-cases (type == Types.device_restart)) [
    | inl restart ↦
        let (set, busy) = schedule-set_callbacks execute_restart_alarm w timers in
        ground (arith, restart, set, busy)
    | inr other ↦ elim (Bool-cases (type == Types.device_shutdown)) [
      | inl shutdown ↦
          let (set, busy) = schedule-set_callbacks execute_shutdown_alarm w timers in
          ground (arith, other, shutdown, set, busy)
      | inr neither ↦ ground (arith, other, neither, append-nil (set_callbacks w))
    ]
  ]

  -- Where the kernel gives and arms a timer whenever it is asked, every restart and shutdown in a batch
  -- sets its alarm, in order: one in progress defers only later
  -- requests, not the rest of its own.
  pub execute_all-set_callbacks :
      (cs : List Cmd) (w : World)
      → HasTimers env
      → set_callbacks (execute_all env cs w) ≡ set_callbacks w ++ orders cs
  unfolding execute_all
  execute_all-set_callbacks [] w timers = sym (append-nil (set_callbacks w))
  execute_all-set_callbacks (c ∷ cs) w timers =
      execute_all-set_callbacks cs (execute_one env c.type w) timers
      ∙ ap (λ xs. xs ++ orders cs) (execute_one-set_callbacks c.type w timers).0
      ∙ append_assoc (set_callbacks w) (ordered_by c.type) (orders cs)

  execution_parsed-err :
      (status : Status) (w : World)
      → status ≢ ok
      → execution_parsed env (some (status, [])) w ≡ (corrupted_command_execution_payload, w)
  unfolding execution_parsed
  execution_parsed-err ok w bad = absurd (bad refl)
  execution_parsed-err _ w bad = refl

  execution_bytes-encode :
      (cs : List Cmd) (w : World)
      → cs ≢ []
      → All IsCmd cs
      → execution_bytes env (encode cs) w ≡ (ok, execute_all env cs w)
  unfolding execution_bytes execution_parsed
  execution_bytes-encode [] w nonempty good = absurd (nonempty refl)
  execution_bytes-encode (c ∷ cs) w nonempty good = rw (read_all-encode (c ∷ cs) nonempty good) refl

  execution_bytes-refused :
      (raw : List ℕ) (w : World)
      → All IsByte raw
      → ((cs : List Cmd) → cs ≢ [] → All IsCmd cs → raw ≢ encode cs)
      → response_to (execution_bytes env raw w) ≡ (not_acceptable_here, w)
  unfolding execution_bytes execution_parsed response_to
  execution_bytes-refused [] w bytes other = refl
  execution_bytes-refused (b ∷ bs) w bytes other = elim (read_all_cases (b ∷ bs) bytes) [
    | inl (cs, nonempty, good, e, read) ↦ absurd (other cs nonempty good e)
    | inr (status, bad, read) ↦ rw read (ap response_to (execution_parsed-err status w bad))
  ]

  -- The answer to any bytes: while a command is in progress they are put off, and nothing changes. Otherwise
  -- the encoding of any non-empty list of commands whose fields fit their words is executed, command by
  -- command, and any other bytes are refused without a change.
  pub execute_command_cb_total :
      (raw : List ℕ) (w : World)
      → All IsByte raw
      → (w.cmd_in_progress ≡ true → execute_command_cb env raw w ≡ (unknown, w))
        × (w.cmd_in_progress ≡ false
            → ((cs : List Cmd)
                → cs ≢ []
                → All IsCmd cs
                → raw ≡ encode cs
                → execute_command_cb env raw w ≡ (resp_ok, execute_all env cs w))
              × (((cs : List Cmd) → cs ≢ [] → All IsCmd cs → raw ≢ encode cs)
                  → execute_command_cb env raw w ≡ (not_acceptable_here, w)))
  unfolding execute_command_cb execution_parse response_to
  execute_command_cb_total raw w bytes = (
    λ busy. ground (arith, busy),
    λ free. (
      λ cs nonempty good e.
          let executed : response_to (execution_bytes env raw w) ≡ (resp_ok, execute_all env cs w) =
            rw e (ap response_to (execution_bytes-encode cs w nonempty good)) in
          ground (arith, free, executed),
      λ other.
          let refused = execution_bytes-refused raw w bytes other in ground (arith, free, refused),
    ),
  )
