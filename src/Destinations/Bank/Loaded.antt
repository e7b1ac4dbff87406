-- ===== src/Destinations/Bank/Loaded.antt =====
-- `seek` on a bank that `load` has filled.
use udptun.Prelude.{
  ℕ, ◌≡◌, refl, sym, ap, ◌∙◌, Bool, true, false, not, List, Option, none, some, ok, find, inl, inr,
}
use udptun.Destinations.{Config, Store, is_some}
use udptun.Destinations.Bank.{Bank, load, seek, missing}
use udptun.Destinations.Bank.Names.{is_configured, has-load}
use udptun.Destinations.Bank.Seek.{load-IsBank, seek-IsBank}
use udptun.Destinations.Bank.Stored.{IsStored}

-- A destination of the store for a name that is configured, and no destination for another.
abbrev pub Answer : Store → Bool → Option ℕ → Type 0
Answer store configured none = configured ≡ false
Answer store configured (some ptr) = (configured ≡ true) × IsStored store ptr

missing_lem : (name : ℕ) (tab : Bank) → missing name tab ≡ not (is_some (find name tab))
unfolding missing
missing_lem name tab = refl

-- When a bank has been loaded, `seek` never divides by zero, whatever the name and the hash: for a
-- name that the configuration lists, alone or as a group with members, it gives a destination that
-- was made, and for any other name it gives none; `missing` tells the two apart.
pub load-Answer :
    (name hash : ℕ) (singletons : List (ℕ × Option Config)) (groups : List (ℕ × List ℕ))
    (tab : Bank) (store : Store)
    → load singletons groups ≡ ok (tab, store)
    → let configured = is_configured name singletons groups in
      (r : Option ℕ) × (seek name hash tab ≡ ok r)
      × Answer store configured r
      × (missing name tab ≡ not configured)
load-Answer name hash singletons groups tab store e =
    let names : is_some (find name tab) ≡ is_configured name singletons groups =
      has-load name singletons groups tab store e in
    let gone : missing name tab ≡ not (is_configured name singletons groups) =
      missing_lem name tab ∙ ap not names in
    elim (seek-IsBank name hash store tab (load-IsBank singletons groups tab store e)) [
      | inl (f, g) ↦ (none, g, sym names ∙ ap is_some f, gone)
      | inr (ptr, s, f, g, p) ↦ (some ptr, g, (sym names ∙ ap is_some f, p), gone)
    ]
