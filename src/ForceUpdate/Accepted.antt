-- ===== src/ForceUpdate/Accepted.antt =====
-- A force-update command that was accepted is durable, is offered to its host and is not accepted again.
use lisstech_drain_ctl.Prelude.{
  String, Bool, true, not, ◌||◌, ◌≡◌, ◌≢◌, refl, sym, ap, ◌∙◌, inl, inr, Option, none, some, List,
  [], ◌∷◌, ◌++◌, arith, Bool-cases, Option-cases, str_eq_refl, some_inj, leb, length,
}
use lisstech_drain_ctl.Prelude.Int.{ℤ, ◌<ℤ◌, ◌-ℤ◌, lt→ltb_ℤ}
use lisstech_drain_ctl.Prelude.Rows.{select, find_row, any_row, delete_where}
use lisstech_drain_ctl.ForceUpdate.{
  accepted, duplicate, Command, Registry, set_commands, is_recent, has_command, gc, new_command,
  accept, persist, enqueue, pending, row_of_command,
}
use lisstech_drain_ctl.ForceUpdate.Outbox.{OutboxRow, is_row, is_expired, capacity}
use lisstech_drain_ctl.ForceUpdate.Outbox

-- A command at the end of a list that passes a filter.
find_row-last :
    (q p : Command → Bool) (xs : List Command) (c : Command)
    → q c ≡ true
    → p c ≡ true
    → (x : Command) × (find_row q (select p (xs ++ c ∷ [])) ≡ some x)
unfolding find_row select
find_row-last q p [] c e f = (c, rw (f, e))
find_row-last q p (x ∷ xs) c e f = elim (Bool-cases (p x)) [
  | inl t ↦ elim (Bool-cases (q x)) [
    | inl u ↦ (x, rw (t, u))
    | inr u ↦ rw (t, u) (find_row-last q p xs c e f)
  ]
  | inr t ↦ rw t (find_row-last q p xs c e f)
]

any_row-last :
    (q p r : Command → Bool) (xs : List Command) (c : Command)
    → q c ≡ true
    → p c ≡ true
    → r c ≡ true
    → any_row q (select r (select p (xs ++ c ∷ []))) ≡ true
unfolding any_row select
any_row-last q p r [] c e f g = rw (f, g, e)
any_row-last q p r (x ∷ xs) c e f g = elim (Bool-cases (p x)) [
  | inl t ↦ elim (Bool-cases (r x)) [
    | inl u ↦ elim (Bool-cases (q x)) [
      | inl v ↦ rw (t, u, v)
      | inr v ↦ rw (t, u, v) (any_row-last q p r xs c e f g)
    ]
    | inr u ↦ rw (t, u) (any_row-last q p r xs c e f g)
  ]
  | inr t ↦ rw t (any_row-last q p r xs c e f g)
]

module _ (window : ℤ) (broken : Bool) (host id reason version : String) (now : ℤ)
    (s : Registry) where
  abbrev made : Command
  made = new_command window host id reason version now

  -- The registry and the outbox after an acceptance.
  abbrev Took : Registry → Type 0
  Took t =
      (kept : List Command) × (t.commands
        ≡ set_commands host (kept ++ made ∷ []) (gc window host now s).commands)
      × (persist window broken made now s.outbox ≡ some t.outbox)

  accept-Took :
      (answer : Option (Option (List OutboxRow)))
      → persist window broken made now s.outbox ≡ answer
      → (accept window host made (gc window host now s) answer).1 ≡ accepted
      → Took (accept window host made (gc window host now s) answer).0
  unfolding accept
  accept-Took none e done = absurd (ground arith)
  accept-Took (some rows) e done = ((gc window host now s).commands host, refl, e)

  enqueue-Took :
      (enqueue window broken host id reason version now s).1 ≡ accepted
      → Took (enqueue window broken host id reason version now s).0
  unfolding enqueue
  enqueue-Took done =
      elim (Option-cases (find_row (has_command id) ((gc window host now s).commands host))) [
        | inl e ↦ rw (e, enqueue) (accept-Took _ refl (rw (e, enqueue) at done))
        | inr (x, e) ↦ absurd (duplicate≢accepted (rw (e, enqueue) at done))
      ]
    where
      duplicate≢accepted : duplicate ≢ accepted
      duplicate≢accepted p = cc

  gc_commands :
      (t : Registry) (later : ℤ)
      → (gc window host later t).commands host
        ≡ select (is_recent (later -ℤ window)) (t.commands host)
  unfolding gc
  gc_commands t later = rw (str_eq_refl host)

  Took-commands :
      (t : Registry) (later : ℤ)
      → Took t
      → (kept : List Command) × ((gc window host later t).commands host
          ≡ select (is_recent (later -ℤ window)) (kept ++ made ∷ []))
  Took-commands t later (kept, is, stored) = (
    kept,
    gc_commands t later
        ∙ ap (λ (m : String → List Command). select (is_recent (later -ℤ window)) (m host)) is
        ∙ ap (select (is_recent (later -ℤ window))) (same kept),
  )
    where
      same :
          (kept : List Command)
          → set_commands host (kept ++ made ∷ []) (gc window host now s).commands host
            ≡ kept ++ made ∷ []
      same kept = rw (str_eq_refl host)

  persist-stored :
      (rows : List OutboxRow) (t : Option (List OutboxRow))
      → persist window broken made now (some rows) ≡ some t
      → (stored : List OutboxRow) × (t ≡ some stored) × (any_row (is_row host id) stored ≡ true)
  unfolding persist Outbox.enqueue
  persist-stored rows t e =
      let kept = delete_where (is_expired (now -ℤ window)) rows in
      elim (Bool-cases (broken || leb capacity (length kept) || any_row (is_row host id) kept)) [
        | inl f ↦ absurd (none≢some (rw (f, persist) at e))
        | inr f ↦ (
          row_of_command made ∷ kept,
          sym (some_inj (rw (f, persist) at e)),
          unfold any_row in rw (str_eq_refl host, str_eq_refl id),
        )
      ]
    where
      none≢some : ¬ (none ≡ some t)
      none≢some p = cc

  seen_again :
      (b : Bool) (why v : String) (later : ℤ) (t : Registry) (x : Command)
      → find_row (has_command id) ((gc window host later t).commands host) ≡ some x
      → (enqueue window b host id why v later t).1 ≡ duplicate
  unfolding enqueue
  seen_again b why v later t x e = rw (e, enqueue)

  -- Directly after its acceptance, and for as long as its window lasts, a command is pending for its
  -- host, and another request for it is answered as a duplicate.
  pub accepted_once :
      (broken_later : Bool) (reason_later version_later : String) (later : ℤ)
      → (enqueue window broken host id reason version now s).1 ≡ accepted
      → later -ℤ window <ℤ now
      → (any_row
            (has_command id)
            (pending window host later (enqueue window broken host id reason version now s).0).1
          ≡ true)
        × ((enqueue window broken_later host id reason_later version_later later
              (enqueue window broken host id reason version now s).0).1
            ≡ duplicate)
  accepted_once broken_later reason_later version_later later done soon =
      let t = (enqueue window broken host id reason version now s).0 in
      let took = enqueue-Took done in
      let (kept, is) = Took-commands t later took in
      let recent : is_recent (later -ℤ window) made ≡ true = lt→ltb_ℤ (later -ℤ window) now soon in
      (
        unfold pending in
            ap (λ cs. any_row (has_command id) (select (λ c. not c.acknowledged) cs)) is
            ∙ any_row-last (has_command id) (is_recent (later -ℤ window)) (λ c. not c.acknowledged)
                kept made (str_eq_refl id) recent refl,
        let (x, found) =
              find_row-last (has_command id) (is_recent (later -ℤ window)) kept made
                (str_eq_refl id) recent in
            seen_again broken_later reason_later version_later later t x
              (ap (find_row (has_command id)) is ∙ found),
      )

  -- A command that is accepted over an outbox is in the outbox.
  pub accepted_durable :
      (rows : List OutboxRow)
      → s.outbox ≡ some rows
      → (enqueue window broken host id reason version now s).1 ≡ accepted
      → (stored : List OutboxRow) × ((enqueue window broken host id reason version now s).0.outbox
          ≡ some stored)
        × (any_row (is_row host id) stored ≡ true)
  accepted_durable rows has done =
      persist-stored rows (enqueue window broken host id reason version now s).0.outbox
        (ap (persist window broken made now) (sym has) ∙ (enqueue-Took done).2)
