-- ===== src/Registry.antt =====
-- The ids of schemas and channels in `Writer` (rust/mcap/src/write.rs): `canonical_*`, `all_*_ids` and
-- `next_*_id`, which `add_schema`, `add_channel` and `write` keep in the same way for both kinds.
--
-- `L` is the content that is registered, `SchemaContent` or `ChannelContent`. Ids are u16. The
-- `BTreeMap` of ids is never iterated here, so its order is not kept. `checks` says whether the build
-- has overflow checks; without them `+= 1` wraps.
pub mod Search
pub mod Laws
pub mod Add
pub mod Enter
use mcap.Prelude.{
  ℕ, zero, suc, ◌+◌, ◌%◌, ◌^◌, Bool, true, false, Option, none, some, List, [], ◌==◌, not,
  if◌then◌else◌,
}
use mcap.Error.{Bytes, Result, McapError, ok, err, panic, stuck, ◌>>=◌}
use mcap.HashMap
use mcap.BiMap.{BiMap}

-- `u16::MAX`
abbrev pub max_id : ℕ
max_id = 65535

unfoldable pub contains : ℕ → List (ℕ × ℕ) → Bool
contains k m = elim (HashMap.get k m) [ none ↦ false | some _ ↦ true ]

-- `self.next_id += 1`
unfoldable pub bump : Bool → ℕ → Result ℕ
bump checks n =
    if n == max_id then (if checks then panic else ok ((n + 1) % 2 ^ 16)) else ok (n + 1)

-- `while all_ids.contains_key(&next) { if next == u16::MAX { return Err } next += 1 }`: whether a free
-- id was found, and `next` at the end. A round for each id from `next` on is enough; where the rounds
-- run out the answer is `none`.
unfoldable pub free_id : ℕ → List (ℕ × ℕ) → ℕ → Option (Bool × ℕ)
free_id zero ids next = none
free_id (suc fuel) ids next =
    let rest = free_id fuel ids (next + 1) in
    if contains next ids
    then (if next == max_id then some (false, next) else rest)
    else some (true, next)

module _ {L : Type 0} (b : BiMap L) where
  open b use {Map, get_by_left, get_by_right, insert_no_overwrite}

  pub record Registry : Type 0 where
    pub canonical : Map
    pub ids : List (ℕ × ℕ)
    pub next_id : ℕ

  abbrev pub new : Registry
  new = record { canonical = b.empty; ids = []; next_id = 1 }

  -- What a registration gives: the id, whether a record for it must be written, and the registry.
  abbrev pub Registered : Type 0
  Registered = ℕ × Bool × Registry

  -- `insert_no_overwrite(..).expect(..)` and `assert!(ids.insert(id, id).is_none())`
  unfoldable pub enter_new : Registry → L → ℕ → ℕ → Result Registered
  enter_new r content id next = elim (insert_no_overwrite r.canonical content id) [
    | none ↦ panic
    | some m ↦
        if contains id r.ids
        then panic
        else ok
            (id, true, record { canonical = m; ids = HashMap.insert id id r.ids; next_id = next })
  ]

  unfoldable pub after_search :
      Bool → McapError → Registry → L → Option (Bool × ℕ) → Result Registered
  after_search checks too_many r content none = stuck
  after_search checks too_many r content (some (false, next)) = err too_many
  after_search checks too_many r content (some (true, id)) =
      bump checks id >>= λ next. enter_new r content id next

  unfoldable pub add_unless : Bool → McapError → Registry → L → Option ℕ → Result Registered
  add_unless checks too_many r content (some id) = ok (id, false, r)
  add_unless checks too_many r content none =
      after_search checks too_many r content (free_id (2 ^ 16) r.ids r.next_id)

  -- What an `add` that fails leaves: the search has moved `next_id` to the last id.
  unfoldable pub searched_to : Result Registered → Registry → Registry
  searched_to (ok _) r = r
  searched_to (err _) r = record r { next_id = max_id }
  searched_to panic r = r
  searched_to stuck r = r

  -- `add_schema` and, once its schema is known to exist, `add_channel`
  unfoldable pub add : Bool → McapError → Registry → L → Result Registered
  unfolding add_unless after_search enter_new
  add checks too_many r content =
      add_unless checks too_many r content (get_by_left r.canonical content)

  -- The entry is occupied: `canonical_id.expect(..)`, then the test for a conflict.
  unfoldable pub check_same : McapError → Registry → ℕ → ℕ → Option ℕ → Result Registered
  check_same conflict r id other none = panic
  check_same conflict r id other (some canonical_id) =
      if other == canonical_id then ok (id, false, r) else err conflict

  -- The entry is vacant.
  unfoldable pub enter_vacant : Registry → L → ℕ → Option ℕ → Result Registered
  enter_vacant r content id (some canonical_id) =
      ok (id, true, record r { ids = HashMap.insert id canonical_id r.ids })
  enter_vacant r content id none = elim (insert_no_overwrite r.canonical content id) [
    | none ↦ panic
    | some m ↦ ok (id, true, record r { canonical = m; ids = HashMap.insert id id r.ids })
  ]

  unfoldable pub enter_at : McapError → Registry → L → ℕ → Option ℕ → Result Registered
  enter_at conflict r content id (some other) =
      check_same conflict r id other (get_by_left r.canonical content)
  enter_at conflict r content id none = enter_vacant r content id (get_by_left r.canonical content)

  -- `Writer::write` for the schema, and again for the channel, of a message: it keeps the id.
  unfoldable pub enter : McapError → Registry → ℕ → L → Result Registered
  unfolding check_same enter_vacant enter_at
  enter conflict r id content = enter_at conflict r content id (HashMap.get id r.ids)
