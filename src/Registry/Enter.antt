-- ===== src/Registry/Enter.antt =====
-- Every outcome of `enter`, by which `Writer::write` registers the schema and the channel of a message.
use mcap.Prelude.{ℕ, ◌≡◌, ◌≢◌, refl, Option, none, some, arith, ◌==◌, ==→eq, Bool-cases, inl, inr}
use mcap.Error.{Result, McapError, ok, err, panic, stuck}
use mcap.HashMap
use mcap.BiMap.{BiMap}
use mcap.Registry.{Registry, Registered, check_same, enter_vacant, enter_at, enter}
use mcap.Registry.Laws.{IsValid, Holds, Holds-old, Holds-new, Holds-again, free_right}

module _ {L : Type 0} (b : BiMap L) (conflict : McapError) where
  open b use {get_by_left, insert_no_overwrite}

  -- The id holds the content, and nothing that was registered changes; or the id holds another
  -- registered content; or, and then it panics, the id is in use and the content is new.
  abbrev pub Entered : Registry b → ℕ → L → Result (Registered b) → Type 0
  Entered r id content (ok (id', _, r')) = (id' ≡ id) × Holds b r r' content id
  Entered r id content (err e) =
      (e ≡ conflict)
      × (other : ℕ) × (cid : ℕ) × (HashMap.get id r.ids ≡ some other)
      × (get_by_left r.canonical content ≡ some cid)
      × (other ≢ cid)
  Entered r id content panic =
      (other : ℕ) × (HashMap.get id r.ids ≡ some other) × (get_by_left r.canonical content ≡ none)
  Entered r id content stuck = ⊥

  module _ (r : Registry b) (id : ℕ) (content : L) (v : IsValid b r) where
    occupied :
        (other : ℕ) (o : Option ℕ)
        → HashMap.get id r.ids ≡ some other
        → get_by_left r.canonical content ≡ o
        → Entered r id content (check_same b conflict r id other o)
    unfolding check_same
    occupied other none at_id e = (other, at_id, e)
    occupied other (some cid) at_id e = elim (Bool-cases (other == cid)) [
      | inl same ↦
          rw same (refl, Holds-old b r content id cid v e (rw (==→eq other cid same) at at_id))
      | inr different ↦ rw different (refl, other, cid, at_id, e, ground arith)
    ]

    vacant :
        (o : Option ℕ)
        → HashMap.get id r.ids ≡ none
        → get_by_left r.canonical content ≡ o
        → Entered r id content (enter_vacant b r content id o)
    unfolding enter_vacant
    vacant (some cid) free e = (refl, Holds-again b r content id cid v free e)
    vacant none free e =
        let (m, at_m) = b.vacant r.canonical content id e (free_right b r id v free) in
        rw (at_m, enter_vacant)
          (refl, Holds-new b r content id r.next_id m v v.next_bound free at_m)

  -- On a valid registry the registration of a message's schema or channel ends in one of three
  -- ways: it keeps the id, the registry stays valid, nothing registered is lost and the content is
  -- found under the id; or it is a conflict, and the id leads to another canonical id than the
  -- content; or it panics, and the id is in use while the content was never registered.
  pub enter-Entered :
      (r : Registry b) (id : ℕ) (content : L)
      → IsValid b r
      → Entered r id content (enter b conflict r id content)
  unfolding enter
  enter-Entered r id content v = go (HashMap.get id r.ids) refl
    where
      go :
          (o : Option ℕ)
          → HashMap.get id r.ids ≡ o
          → Entered r id content (enter_at b conflict r content id o)
      go none e = vacant r id content v (get_by_left r.canonical content) e refl
      go (some other) e = occupied r id content v other (get_by_left r.canonical content) e refl
