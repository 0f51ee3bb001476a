-- ===== src/Updater/Ledger.antt =====
-- A forced check runs once, and its ledger is bounded.
use lisstech_drain_ctl.Prelude.{
  suc, ◌+◌, ◌-◌, ◌<◌, ◌≤◌, ◌≡◌, ◌⊎◌, inl, inr, refl, Bool, true, false, List, [], ◌∷◌, arith, ltb,
  length, length-drop, Bool-cases,
}
use lisstech_drain_ctl.Prelude.Int.{ℤ, pos, ◌-ℤ◌, ◌≤ℤ◌, ltb_ℤ, ge→ltb_ℤ}
use lisstech_drain_ctl.Prelude.Bytes.{bytes_equal_refl}
use lisstech_drain_ctl.Prelude.Rows.{any_row, delete_where, order_by}
use lisstech_drain_ctl.Prelude.Sorted.{length-order_by}
use lisstech_drain_ctl.Updater.{Text, Calls, Updater, TickOutcome, run_tick}
use lisstech_drain_ctl.Updater.Trigger.{
  ForcedCommand, idempotency_window, ledger_cap, before, cap_commands, prune_commands, is_command,
  read_failed, duplicate, record_failed, ticked, Triggered, trigger_check_now,
}

length-delete_where :
    (p : ForcedCommand → Bool) (cs : List ForcedCommand) → length (delete_where p cs) ≤ length cs
unfolding delete_where
length-delete_where p [] = omega arith
length-delete_where p (c ∷ cs) = let rest = length-delete_where p cs in ground arith

length-cap_commands :
    (cs : List ForcedCommand)
    → (length (cap_commands cs) < 256) × (length (cap_commands cs) ≤ length cs)
length-cap_commands cs = elim (Bool-cases (ltb (length cs) ledger_cap)) [
  | inl e ↦ rw e (ground arith, omega arith)
  | inr e ↦ rw e (
      let dropped = length-drop (length cs - ledger_cap + 1) (order_by before cs) in
      let same = length-order_by before cs in (ground arith, ground arith))
]

length-prune_commands :
    (now : ℤ) (cs : List ForcedCommand)
    → (length (prune_commands now cs) < 256) × (length (prune_commands now cs) ≤ length cs)
unfolding prune_commands
length-prune_commands now cs =
    let is_old : ForcedCommand → Bool = λ c. ltb_ℤ c.seen_at (now -ℤ pos idempotency_window) in
    let (small, fewer) = length-cap_commands (delete_where is_old cs) in
    let kept = length-delete_where is_old cs in (small, omega (arith, fewer, kept))

module _ (calls : Calls) (load_fails save_fails : Bool) (now : ℤ) (id : Text) (enabled : Bool)
    (version highest_seen : Text) (commands : List ForcedCommand) (u : Updater) where
  abbrev result : Triggered
  result =
      trigger_check_now calls load_fails save_fails now id enabled version highest_seen commands u

  abbrev recorded : List ForcedCommand
  recorded = record { id = id; seen_at = now } ∷ prune_commands now commands

  any_row-recorded : any_row (is_command id) recorded ≡ true
  unfolding any_row
  any_row-recorded = rw (bytes_equal_refl id) refl

  -- A trigger either runs one poll, and then its id is in the file, which has at most 256; or it answers
  -- that the file was not read, that the id is a duplicate or that it was not recorded, and then it leaves
  -- the file and the updater as they were.
  pub trigger_recorded :
      ((result.outcome ≡ ticked (run_tick calls enabled true version highest_seen u).0)
        × (result.updater ≡ (run_tick calls enabled true version highest_seen u).1)
        × (length result.commands ≤ 256)
        × (any_row (is_command id) result.commands ≡ true))
      ⊎ (((result.outcome ≡ read_failed)
            ⊎ (result.outcome ≡ duplicate)
            ⊎ (result.outcome ≡ record_failed))
          × (result.commands ≡ commands)
          × (result.updater ≡ u))
  unfolding trigger_check_now
  trigger_recorded = elim (Bool-cases load_fails) [
    | inl e ↦ rw e (inr (inl refl, refl, refl))
    | inr e ↦ elim (Bool-cases (any_row (is_command id) (prune_commands now commands))) [
      | inl f ↦ rw (e, f) (inr (inr (inl refl), refl, refl))
      | inr f ↦ elim (Bool-cases save_fails) [
        | inl g ↦ rw (e, f, g) (inr (inr (inr refl), refl, refl))
        | inr g ↦
            rw (e, f, g)
              (let (small, fewer) = length-prune_commands now commands in
                inl (refl, refl, omega (arith, small), any_row-recorded))
      ]
    ]
  ]

  ticked-recorded : (o : TickOutcome) → result.outcome ≡ ticked o → result.commands ≡ recorded
  unfolding trigger_check_now
  ticked-recorded o = elim (Bool-cases load_fails) [
    | inl e ↦ rw e λ h. absurd (ground arith)
    | inr e ↦ elim (Bool-cases (any_row (is_command id) (prune_commands now commands))) [
      | inl f ↦ rw (e, f) λ h. absurd (ground arith)
      | inr f ↦ elim (Bool-cases save_fails) [
        | inl g ↦ rw (e, f, g) λ h. absurd (ground arith)
        | inr g ↦ rw (e, f, g) λ h. refl
      ]
    ]
  ]

  any_row-prune_recorded :
      (now' : ℤ)
      → length commands < 255
      → now' -ℤ pos idempotency_window ≤ℤ now
      → any_row (is_command id) (prune_commands now' recorded) ≡ true
  unfolding prune_commands delete_where any_row
  any_row-prune_recorded now' few recent =
      let is_old : ForcedCommand → Bool = λ c. ltb_ℤ c.seen_at (now' -ℤ pos idempotency_window) in
      let (small, fewer) = length-prune_commands now commands in
      let kept = length-delete_where is_old (prune_commands now commands) in
      let under : ltb (suc (length (delete_where is_old (prune_commands now commands)))) ledger_cap
          ≡ true =
        ground (arith, kept, fewer) in
      rw (ge→ltb_ℤ now (now' -ℤ pos idempotency_window) recent)
        (rw under (rw (bytes_equal_refl id) refl))

  -- A forced check that ran is not run again under its id, by the trigger that follows it and reads the file
  -- within the window of 24 hours, when the file had fewer than 255 commands: that is answered as a
  -- duplicate, whatever the calls, the configuration and the updater then are.
  pub trigger_again :
      (calls' : Calls) (save_fails' : Bool) (now' : ℤ) (enabled' : Bool)
      (version' highest_seen' : Text) (u' : Updater) (o : TickOutcome)
      → length commands < 255
      → now' -ℤ pos idempotency_window ≤ℤ now
      → result.outcome ≡ ticked o
      → trigger_check_now calls' false save_fails' now' id enabled' version' highest_seen'
          result.commands u'
        ≡ record { outcome = duplicate; commands = result.commands; updater = u' }
  unfolding trigger_check_now
  trigger_again calls' save_fails' now' enabled' version' highest_seen' u' o few recent e =
      rw (ticked-recorded o e) (rw (any_row-prune_recorded now' few recent) refl)
