-- ===== src/Registry/Add.antt =====
-- Every outcome of `add`: `add_schema`, and `add_channel` after its check of the schema.
use mcap.Prelude.{
  ℕ, suc, ◌≤◌, ◌≡◌, refl, Bool, true, false, Option, none, some, inl, inr, arith, ◌==◌, ◌^◌, ==→eq,
  Bool-cases,
}
use mcap.Error.{Result, McapError, ok, err, panic, stuck, ◌>>=◌}
use mcap.BiMap.{BiMap}
use mcap.Registry.{
  Registry, Registered, contains, bump, free_id, max_id, enter_new, after_search, add_unless, add,
}
use mcap.Registry.Search.{contains_fresh, AllTaken, Found, free_id-Found}
use mcap.Registry.Laws.{IsValid, Holds, Holds-old, Holds-new, free_right}

-- What `+= 1` may answer.
abbrev Bumped : Bool → ℕ → Result ℕ → Type 0
Bumped checks n (ok next) = next ≤ max_id
Bumped checks n (err e) = ⊥
Bumped checks n panic = (checks ≡ true) × (n ≡ max_id)
Bumped checks n stuck = ⊥

bump-Bumped : (checks : Bool) (n : ℕ) → n ≤ max_id → Bumped checks n (bump checks n)
unfolding bump
bump-Bumped true n h = elim (Bool-cases (n == max_id)) [
  | inl e ↦ rw e (refl, ==→eq n max_id e)
  | inr e ↦ rw e (ground arith)
]
bump-Bumped false n h = elim (Bool-cases (n == max_id)) [
  | inl e ↦ rw e (omega (arith, ==→eq n max_id e))
  | inr e ↦ rw e (ground arith)
]

module _ {L : Type 0} (b : BiMap L) (checks : Bool) (too_many : McapError) where
  open b use {get_by_left, insert_no_overwrite}

  -- The content is registered, and nothing that was registered changes; or no id is left from
  -- `next_id` on; or the first free id is the last one, and the build checks for overflow.
  abbrev pub Added : Registry b → L → Result (Registered b) → Type 0
  Added r content (ok (id, _, r')) = Holds b r r' content id
  Added r content (err e) = (e ≡ too_many) × AllTaken r.ids r.next_id (suc max_id)
  Added r content panic =
      (checks ≡ true) × (contains max_id r.ids ≡ false) × AllTaken r.ids r.next_id max_id
  Added r content stuck = ⊥

  module _ (r : Registry b) (content : L) (v : IsValid b r)
      (fresh : get_by_left r.canonical content ≡ none) where
    entered_new :
        (id next : ℕ)
        → contains id r.ids ≡ false
        → next ≤ max_id
        → Added r content (enter_new b r content id next)
    unfolding enter_new
    entered_new id next free bound =
        let at_id = contains_fresh id r.ids free in
        let (m, e) = b.vacant r.canonical content id fresh (free_right b r id v at_id) in
        rw (e, enter_new) (rw free (Holds-new b r content id next m v bound at_id e))

    after_bump :
        (id : ℕ) (o : Result ℕ)
        → contains id r.ids ≡ false
        → AllTaken r.ids r.next_id id
        → Bumped checks id o
        → Added r content (o >>= λ next. enter_new b r content id next)
    after_bump id (ok next) free below h = entered_new id next free h
    after_bump id (err e) free below h = elim h [ ]
    after_bump id panic free below (c, last) = (c, rw last at free, rw last at below)
    after_bump id stuck free below h = elim h [ ]

    searched :
        (o : Option (Bool × ℕ))
        → Found r.ids r.next_id o
        → Added r content (after_search b checks too_many r content o)
    unfolding after_search
    searched none f = elim f [ ]
    searched (some (true, id)) (free, lo, hi, below) =
        after_bump id (bump checks id) free below (bump-Bumped checks id hi)
    searched (some (false, id)) (last, taken) = (refl, taken)

  -- On a valid registry `add` ends in one of three ways: the content has an id, the registry stays
  -- valid and nothing registered is lost; or it fails, and every id from the next one to 65535 is
  -- taken; or it panics, in a build with overflow checks, and the last id is the first free one.
  pub add-Added :
      (r : Registry b) (content : L)
      → IsValid b r
      → Added r content (add b checks too_many r content)
  unfolding add
  add-Added r content v = go (get_by_left r.canonical content) refl
    where
      go :
          (o : Option ℕ)
          → get_by_left r.canonical content ≡ o
          → Added r content (add_unless b checks too_many r content o)
      go (some id) e = Holds-old b r content id id v e (v.registered content id e)
      go none e =
          searched r content v e (free_id (2 ^ 16) r.ids r.next_id)
            (free_id-Found (2 ^ 16) r.ids r.next_id v.next_bound (omega arith))

  -- A content that has an id keeps it: nothing is written, and nothing changes.
  pub add_known :
      (r : Registry b) (content : L) (id : ℕ)
      → get_by_left r.canonical content ≡ some id
      → add b checks too_many r content ≡ ok (id, false, r)
  unfolding add
  add_known r content id e = rw e
