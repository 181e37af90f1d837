-- ===== src/Journal/Examples.antt =====
-- Runs of the journal, and its theorems at concrete inputs.
use text.Mathlib.TextLemmas
use grouvi_nox.Prelude.{
  Bool-cases, List, String, [], arith, eq_iff, false, inl, inr, none, ok, refl, some, ℕ, ◌++◌, ◌==◌,
  ◌∷◌, ◌≡◌, ◌⊎◌,
}
use grouvi_nox.Journal.{
  Fields, Row, Line, blank, unreadable, parsed, intact, broken, JournalEnv, genesis, read,
  is_marked, last_hash, last_seq, reserved_in, line_hash, new_row, append, mismatch, verify,
}
use grouvi_nox.Journal.Chain.{Fits, append-intact, append_all, append_all-intact}
use grouvi_nox.Journal.Tamper.{Collision, tamper_evident, unreadable_at, mismatch_at}

-- A digest that marks its text, and a printer that shows the first key alone.
abbrev first_key : Fields → String
first_key [] = "{}"
first_key ((k, v) ∷ es) = k

mark_nonempty : (s : String) → (String.◌∷◌ "#" s == "") ≡ false
mark_nonempty s = elim (Bool-cases (String.◌∷◌ "#" s == "")) [
  | inl same ↦ absurd (TextLemmas.cons≢nil ((eq_iff (String.◌∷◌ "#" s) "").0 same))
  | inr other ↦ other
]

abbrev toy : JournalEnv
toy = record {
  sha256 = λ s. String.◌∷◌ "#" s;
  stringify = λ b. first_key b.entry;
  sha256_nonempty = mark_nonempty;
}

abbrev events : List (ℕ × Fields)
events = (10, ("event", "a") ∷ []) ∷ (20, ("reason", "b") ∷ []) ∷ []

abbrev file : List Line
file = (append toy 10 (("event", "a") ∷ []) []).0

file_intact :
    verify toy file
    ≡ intact 1
        (line_hash toy genesis (record { seq = some 1; ts = 10; entry = ("event", "a") ∷ [] }))
unfolding verify append read reserved_in new_row line_hash last_hash last_seq mismatch is_marked
file_intact = refl

reserved_refused : reserved_in (("event", "a") ∷ ("prev", "x") ∷ []) ≡ some "prev"
unfolding reserved_in
reserved_refused = refl

not_reserved : reserved_in (("reason", "b") ∷ []) ≡ none
unfolding reserved_in
not_reserved = refl

not_reserved_event : reserved_in (("event", "a") ∷ []) ≡ none
unfolding reserved_in
not_reserved_event = refl

unmarked : is_marked (("reason", "b") ∷ []) ≡ false
unfolding is_marked
unmarked = refl

unmarked_event : is_marked (("event", "a") ∷ []) ≡ false
unfolding is_marked
unmarked_event = refl

-- `append` writes a key that `verify` reads as a damaged line.
corrupt_refused :
    verify toy (append toy 10 (("corrupt", "1") ∷ []) []).0 ≡ broken 1 "unreadable_line"
unfolding verify append read reserved_in new_row line_hash last_hash last_seq is_marked
corrupt_refused = refl

abbrev head : String
head = line_hash toy genesis (record { seq = some 1; ts = 10; entry = ("event", "a") ∷ [] })

append-intact_example :
    (r : Row) × (append toy 20 (("reason", "b") ∷ []) file ≡ (file ++ parsed r ∷ [], ok r))
    × (verify toy (append toy 20 (("reason", "b") ∷ []) file).0 ≡ intact 2 r.hash)
    × (r.body ≡ record { seq = some 2; ts = 20; entry = ("reason", "b") ∷ [] })
    × (r.prev ≡ head)
append-intact_example =
    append-intact toy 1 20 head (("reason", "b") ∷ []) file file_intact not_reserved unmarked

append_all-intact_example : (h : String) × (verify toy (append_all toy events []) ≡ intact 2 h)
append_all-intact_example =
    append_all-intact toy events (not_reserved_event, unmarked_event, (not_reserved, unmarked, tt))

tamper_evident_example : (read file ≡ read (blank ∷ file)) ⊎ Collision toy
tamper_evident_example =
    tamper_evident toy 1 head file (blank ∷ file) file_intact (unfold verify read in file_intact)

unreadable_at_example : verify toy (file ++ unreadable ∷ file) ≡ broken 2 "unreadable_line"
unreadable_at_example = unreadable_at toy 1 head file file file_intact

abbrev forged : Row
forged = record { body = record { seq = some 7; ts = 1; entry = [] }; prev = genesis; hash = "" }

forged_unfit : ¬ Fits toy head 2 forged
forged_unfit f = ground (arith, f.numbered)

mismatch_at_example : verify toy (file ++ parsed forged ∷ []) ≡ broken 7 "chain_mismatch"
unfolding is_marked
mismatch_at_example = mismatch_at toy 1 head file [] forged file_intact refl forged_unfit
