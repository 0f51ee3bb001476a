-- ===== src/Agent/Queue.antt =====
-- The queue of completions: at most 20, one for each action.
use lisstech_drain_ctl.Prelude.{
  ℕ, zero, suc, ◌+◌, ◌-◌, String, Bool, true, false, ◌≡◌, ◌≢◌, ◌≤◌, refl, sym, ap, inl, inr, Option,
  none, some, List, [], ◌∷◌, ◌++◌, map, arith, Bool-cases, str_eq_refl, length, length-append,
  if◌then◌else◌,
}
use mathlib.Core.Path.{subst}
use lisstech_drain_ctl.Prelude.Int.{pos, eqb_ℤ, ◌-ℤ◌}
use lisstech_drain_ctl.Prelude.Distinct.{Absent, Distinct, any_row-Absent}
use lisstech_drain_ctl.Agent.{PendingAction, CompletedAction, Env}
use lisstech_drain_ctl.Agent.Executor.{execute}
use lisstech_drain_ctl.Agent.Runtime.{
  Runtime, has_completion, remove_first, acknowledged_in, acknowledge_completions,
  is_new_completion, append_completion, execute_loop, execute_pending_actions,
  apply_remote_session_actions,
}

abbrev pub completion_ids : List CompletedAction → List String
completion_ids = map (λ c. c.action_id)

-- No action is queued twice, and the queue is within the bound of a report.
abbrev pub IsBounded : Runtime → Type 0
IsBounded r = Distinct (completion_ids r.completions) × (length r.completions ≤ 20)

Distinct-append :
    (ks : List String) (k : String) → Distinct ks → Absent k ks → Distinct (ks ++ (k ∷ []))
Distinct-append [] k d a = (tt, tt)
Distinct-append (j ∷ ks) k d a =
    (Absent-append ks k d.0 (λ e. a.0 (sym e)), Distinct-append ks k d.1 a.1)
  where
    Absent-append :
        (ks : List String) (k : String) → Absent j ks → k ≢ j → Absent j (ks ++ (k ∷ []))
    Absent-append [] k h n = (n, tt)
    Absent-append (i ∷ ks) k h n = (h.0, Absent-append ks k h.1 n)

ids-append :
    (cs : List CompletedAction) (c : CompletedAction)
    → completion_ids (cs ++ (c ∷ [])) ≡ completion_ids cs ++ (c.action_id ∷ [])
ids-append [] c = refl
ids-append (d ∷ cs) c = ap (λ ks. d.action_id ∷ ks) (ids-append cs c)

remove_first-Absent :
    (k id : String) (cs : List CompletedAction)
    → Absent k (completion_ids cs)
    → Absent k (completion_ids (remove_first id cs))
unfolding remove_first
remove_first-Absent k id [] h = tt
remove_first-Absent k id (c ∷ cs) h = elim (Bool-cases (has_completion id c)) [
  | inl e ↦ rw e h.1
  | inr e ↦ rw e (h.0, remove_first-Absent k id cs h.1)
]

remove_first-Distinct :
    (id : String) (cs : List CompletedAction)
    → Distinct (completion_ids cs)
    → Distinct (completion_ids (remove_first id cs))
unfolding remove_first
remove_first-Distinct id [] d = tt
remove_first-Distinct id (c ∷ cs) d = elim (Bool-cases (has_completion id c)) [
  | inl e ↦ rw e d.1
  | inr e ↦ rw e (remove_first-Absent c.action_id id cs d.0, remove_first-Distinct id cs d.1)
]

remove_first-length :
    (id : String) (cs : List CompletedAction) → length (remove_first id cs) ≤ length cs
unfolding remove_first
remove_first-length id [] = omega arith
remove_first-length id (c ∷ cs) = elim (Bool-cases (has_completion id c)) [
  | inl e ↦ rw e (omega arith)
  | inr e ↦ rw e (omega (arith, remove_first-length id cs))
]

acknowledge-IsBounded :
    (env : Env) (ids : List String) (r : Runtime)
    → IsBounded r
    → IsBounded (acknowledge_completions env ids r)
unfolding acknowledge_completions
acknowledge-IsBounded env [] r h = h
acknowledge-IsBounded env (id ∷ ids) r h = acknowledge-IsBounded env ids _ kept
  where
    kept :
        Distinct (
          completion_ids
            (if (acknowledged_in env id r).1 then remove_first id r.completions else r.completions))
        × (length (
              if (acknowledged_in env id r).1 then remove_first id r.completions else r.completions)
            ≤ 20)
    kept = elim (Bool-cases (acknowledged_in env id r).1) [
      | inl e ↦ rw e (
        remove_first-Distinct id r.completions h.0,
        omega (arith, h.1, remove_first-length id r.completions),
      )
      | inr e ↦ rw e h
    ]

one_less : (k : ℕ) → pos (suc k) -ℤ pos 1 ≡ pos k
unfolding ◌-ℤ◌
one_less k = ground arith

some_left : (k : ℕ) → eqb_ℤ (pos (suc k)) (pos 0) ≡ false
unfolding eqb_ℤ
some_left k = ground arith

left_of : (n k : ℕ) → k + n ≡ 20 → pos 20 -ℤ pos n ≡ pos k
unfolding ◌-ℤ◌
left_of n k e = ground arith

new-Absent :
    (cs : List CompletedAction) (c : CompletedAction)
    → is_new_completion cs (some c) ≡ true
    → Absent c.action_id (completion_ids cs)
unfolding is_new_completion
new-Absent cs c e =
    any_row-Absent (λ d. d.action_id) c.action_id (has_completion c.action_id) cs
      (λ d same. rw same (str_eq_refl c.action_id)) (ground arith)

appended :
    (cs : List CompletedAction) (done : Option CompletedAction) (k : ℕ)
    → is_new_completion cs done ≡ true
    → Distinct (completion_ids cs)
    → suc k + length cs ≡ 20
    → Distinct (completion_ids (append_completion cs done))
      × (k + length (append_completion cs done) ≡ 20)
unfolding append_completion
appended cs none k e d room = absurd (unfold is_new_completion in ground arith)
appended cs (some c) k e d room = (
  subst Distinct (sym (ids-append cs c))
      (Distinct-append (completion_ids cs) c.action_id d (new-Absent cs c e)),
  omega (arith, room, length-append cs (c ∷ [])),
)

loop-IsBounded :
    (env : Env) (ps : List PendingAction) (k : ℕ) (r : Runtime)
    → Distinct (completion_ids r.completions)
    → k + length r.completions ≡ 20
    → IsBounded (execute_loop env ps (pos k) r)
unfolding execute_loop
loop-IsBounded env [] k r d room = (d, omega (arith, room))
loop-IsBounded env (p ∷ ps) zero r d room = unfold eqb_ℤ in (d, omega (arith, room))
loop-IsBounded env (p ∷ ps) (suc k) r d room =
    let done = (execute env p r.world).1 in
    elim (Bool-cases (is_new_completion r.completions done)) [
      | inl e ↦
          let (distinct, left) = appended r.completions done k e d room in
          rw (some_left k, e, one_less k)
            (loop-IsBounded env ps k
              (record r {
                world = (execute env p r.world).0;
                completions = append_completion r.completions done;
              })
              distinct left)
      | inr e ↦
          rw (some_left k, e)
            (loop-IsBounded env ps (suc k) (record r { world = (execute env p r.world).0 }) d room)
    ]

either-IsBounded :
    (b : Bool) (x y : Runtime) → IsBounded x → IsBounded y → IsBounded (if b then x else y)
either-IsBounded true x y h k = h
either-IsBounded false x y h k = k

pending-IsBounded :
    (env : Env) (ps : List PendingAction) (r : Runtime)
    → IsBounded r
    → IsBounded (execute_pending_actions env ps r)
unfolding execute_pending_actions
pending-IsBounded env ps r (d, small) =
    either-IsBounded r.has_executor _ r
      (rw (left_of (length r.completions) (20 - length r.completions) (omega (arith, small)))
        (loop-IsBounded env ps (20 - length r.completions) r d (omega (arith, small))))
      (d, small)

-- However many actions the dashboard delivers and acknowledges, the queue of completions names no
-- action twice and never holds more than the 20 that one report may carry.
pub apply_remote-IsBounded :
    (env : Env) (acknowledged : List String) (ps : List PendingAction) (r : Runtime)
    → IsBounded r
    → IsBounded (apply_remote_session_actions env acknowledged ps r)
unfolding apply_remote_session_actions
apply_remote-IsBounded env acknowledged ps r h =
    pending-IsBounded env ps (acknowledge_completions env acknowledged r)
      (acknowledge-IsBounded env acknowledged r h)
