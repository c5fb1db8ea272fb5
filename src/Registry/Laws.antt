-- ===== src/Registry/Laws.antt =====
-- What the registration of schemas and channels keeps, on every branch.
use mcap.Prelude.{
  ℕ, ◌≤◌, ◌≡◌, refl, ◌∙◌, Bool, true, false, Option, none, some, ◌⊎◌, inl, inr, arith, ◌==◌,
  if◌then◌else◌,
}
use mcap.HashMap
use mcap.HashMap.{get-insert, get-insert_fresh, get-insert_self}
use mcap.BiMap.{BiMap}
use mcap.Registry.{Registry, new, max_id}

module _ {L : Type 0} (b : BiMap L) where
  open b use {Map, get_by_left, get_by_right, insert_no_overwrite}

  -- Every id in use leads to a canonical id, which has a content and leads to itself.
  pub record IsValid (r : Registry b) : Type 0 where
    pub known :
        (id cid : ℕ)
        → HashMap.get id r.ids ≡ some cid
        → (l : L) × (get_by_left r.canonical l ≡ some cid)
    pub registered :
        (l : L) (cid : ℕ) → get_by_left r.canonical l ≡ some cid → HashMap.get cid r.ids ≡ some cid
    pub next_bound : r.next_id ≤ max_id

  pub IsValid-new : IsValid (new b)
  unfolding HashMap.get
  IsValid-new = record {
    known = λ id cid h. cc;
    registered = λ l cid h. cc (h, b.empty_left l);
    next_bound = omega arith;
  }

  -- No id and no content that was registered is registered anew.
  pub record Keeps (r r' : Registry b) : Type 0 where
    pub contents :
        (l : L) (cid : ℕ)
        → get_by_left r.canonical l ≡ some cid
        → get_by_left r'.canonical l ≡ some cid
    pub ids : (id cid : ℕ) → HashMap.get id r.ids ≡ some cid → HashMap.get id r'.ids ≡ some cid

  -- After a registration `content` has the id `id`, in a valid registry.
  pub record Holds (r r' : Registry b) (content : L) (id : ℕ) : Type 0 where
    pub valid : IsValid r'
    pub keeps : Keeps r r'
    pub cid : ℕ
    pub at_content : get_by_left r'.canonical content ≡ some cid
    pub at_id : HashMap.get id r'.ids ≡ some cid

  pub Holds-old :
      (r : Registry b) (content : L) (id cid : ℕ)
      → IsValid r
      → get_by_left r.canonical content ≡ some cid
      → HashMap.get id r.ids ≡ some cid
      → Holds r r content id
  Holds-old r content id cid v h k = record {
    valid = v;
    keeps = record { contents = λ l c e. e; ids = λ i c e. e };
    cid = cid;
    at_content = h;
    at_id = k;
  }

  -- A new content under a free id.
  module _ (r : Registry b) (content : L) (id next : ℕ) (m : Map) (v : IsValid r)
      (bound : next ≤ max_id) (free : HashMap.get id r.ids ≡ none)
      (e : insert_no_overwrite r.canonical content id ≡ some m) where
    abbrev pub entered : Registry b
    entered = record { canonical = m; ids = HashMap.insert id id r.ids; next_id = next }

    pub Holds-new : Holds r entered content id
    Holds-new = record {
      valid = record {
        known = λ i c h. known_after i c (id == i) refl (rw get-insert at h);
        registered = λ l c h. registered_after l c (b.origin r.canonical m content id l c e h);
        next_bound = bound;
      };
      keeps = record {
        contents = λ l c h. b.kept r.canonical m content id l c e h;
        ids = λ i c h. get-insert_fresh id i id c r.ids free h;
      };
      cid = id;
      at_content = b.inserted r.canonical m content id e;
      at_id = get-insert_self id id r.ids;
    }
      where
        known_after :
            (i c : ℕ) (same : Bool)
            → (id == i) ≡ same
            → (if same then some id else HashMap.get i r.ids) ≡ some c
            → (l : L) × (get_by_left m l ≡ some c)
        known_after i c true q h = (content, b.inserted r.canonical m content id e ∙ h)
        known_after i c false q h =
            let (l, at_l) = v.known i c h in (l, b.kept r.canonical m content id l c e at_l)

        registered_after :
            (l : L) (c : ℕ)
            → ((l ≡ content) × (c ≡ id)) ⊎ (get_by_left r.canonical l ≡ some c)
            → HashMap.get c (HashMap.insert id id r.ids) ≡ some c
        registered_after l c (inl (_, q)) = rw q (get-insert_self id id r.ids)
        registered_after l c (inr h) = get-insert_fresh id c id c r.ids free (v.registered l c h)

  -- A known content under one more id.
  pub Holds-again :
      (r : Registry b) (content : L) (id cid : ℕ)
      → IsValid r
      → HashMap.get id r.ids ≡ none
      → get_by_left r.canonical content ≡ some cid
      → Holds r (record r { ids = HashMap.insert id cid r.ids }) content id
  Holds-again r content id cid v free h = record {
    valid = record {
      known = λ i c g. known_after i c (id == i) refl (rw get-insert at g);
      registered = λ l c g. get-insert_fresh id c cid c r.ids free (v.registered l c g);
      next_bound = v.next_bound;
    };
    keeps = record {
      contents = λ l c g. g;
      ids = λ i c g. get-insert_fresh id i cid c r.ids free g;
    };
    cid = cid;
    at_content = h;
    at_id = get-insert_self id cid r.ids;
  }
    where
      known_after :
          (i c : ℕ) (same : Bool)
          → (id == i) ≡ same
          → (if same then some cid else HashMap.get i r.ids) ≡ some c
          → (l : L) × (get_by_left r.canonical l ≡ some c)
      known_after i c true q g = (content, h ∙ g)
      known_after i c false q g = v.known i c g

  -- A free id is not the canonical id of any content.
  pub free_right :
      (r : Registry b) (id : ℕ)
      → IsValid r
      → HashMap.get id r.ids ≡ none
      → get_by_right r.canonical id ≡ none
  free_right r id v free = go (get_by_right r.canonical id) refl
    where
      go : (o : Option L) → get_by_right r.canonical id ≡ o → get_by_right r.canonical id ≡ none
      go none e = e
      go (some l) e = absurd (cc (free, v.registered l id (b.left_of_right r.canonical l id e)))
