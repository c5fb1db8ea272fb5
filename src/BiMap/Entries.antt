-- ===== src/BiMap/Entries.antt =====
-- An implementation of the interface `BiMap`: a list of entries.
use mcap.Prelude.{
  ℕ, ◌≡◌, refl, sym, ap, Bool, true, false, Option, none, some, ◌⊎◌, inl, inr, List, [], ◌∷◌, ◌==◌,
  ==→eq, eq→==, Bool-cases, if◌then◌else◌,
}
use mcap.BiMap.{BiMap}

module _ {L : Type 0} (eq : L → L → Bool) (eq_refl : (x : L) → eq x x ≡ true)
    (eq→≡ : (x y : L) → eq x y ≡ true → x ≡ y) where
  abbrev pub at_left : List (L × ℕ) → L → Option ℕ
  at_left [] l = none
  at_left ((x, v) ∷ m) l = if eq x l then some v else at_left m l

  abbrev pub at_right : List (L × ℕ) → ℕ → Option L
  at_right [] r = none
  at_right ((x, v) ∷ m) r = if v == r then some x else at_right m r

  pub record IsOneToOne (m : List (L × ℕ)) : Type 0 where
    pub right : (l : L) (r : ℕ) → at_left m l ≡ some r → at_right m r ≡ some l
    pub left : (l : L) (r : ℕ) → at_right m r ≡ some l → at_left m l ≡ some r

  some_cong : {A : Type 0} {x y : A} → some x ≡ some y → x ≡ y
  some_cong e = cc

  pub IsOneToOne-new :
      (m : List (L × ℕ)) (l : L) (r : ℕ)
      → IsOneToOne m
      → at_left m l ≡ none
      → at_right m r ≡ none
      → IsOneToOne ((l, r) ∷ m)
  IsOneToOne-new m l r u free_l free_r = record {
    right = λ x v h. elim (Bool-cases (eq l x)) [
      | inl e ↦ rw (eq→== r v (some_cong (rw e at h))) (ap some (eq→≡ l x e))
      | inr e ↦ rw (other_right x v (rw e at h)) (u.right x v (rw e at h))
    ];
    left = λ x v h. elim (Bool-cases (r == v)) [
      | inl e ↦ rw (same_left x (some_cong (rw e at h))) (ap some (==→eq r v e))
      | inr e ↦ rw (other_left x v (rw e at h)) (u.left x v (rw e at h))
    ];
  }
    where
      other_right : (x : L) (v : ℕ) → at_left m x ≡ some v → (r == v) ≡ false
      other_right x v h = elim (Bool-cases (r == v)) [
        | inl e ↦ absurd (cc (free_r, u.right x v h, ==→eq r v e))
        | inr e ↦ e
      ]

      other_left : (x : L) (v : ℕ) → at_right m v ≡ some x → eq l x ≡ false
      other_left x v h = elim (Bool-cases (eq l x)) [
        | inl e ↦ absurd (cc (free_l, u.left x v h, eq→≡ l x e))
        | inr e ↦ e
      ]

      same_left : (x : L) → l ≡ x → eq l x ≡ true
      same_left x e = rw e (eq_refl x)

  pub IsOneToOne-empty : IsOneToOne []
  IsOneToOne-empty = record { right = λ l r h. absurd (cc h); left = λ l r h. absurd (cc h) }

  abbrev pub Entries : Type 0
  Entries = (m : List (L × ℕ)) × IsOneToOne m

  abbrev pub insert_if :
      (m : Entries) (l : L) (r : ℕ) (o : Option ℕ) (p : Option L)
      → at_left m.0 l ≡ o
      → at_right m.0 r ≡ p
      → Option Entries
  insert_if m l r none none e f = some ((l, r) ∷ m.0, IsOneToOne-new m.0 l r m.1 e f)
  insert_if m l r (some _) p e f = none
  insert_if m l r none (some _) e f = none

  pub insert_if_lem :
      (m m' : Entries) (l : L) (r : ℕ) (o : Option ℕ) (p : Option L) (e : at_left m.0 l ≡ o)
      (f : at_right m.0 r ≡ p)
      → insert_if m l r o p e f ≡ some m'
      → (m'.0 ≡ (l, r) ∷ m.0) × (at_left m.0 l ≡ none)
  insert_if_lem m m' l r none none e f h = (ap (λ (x : Entries). x.0) (some_cong (sym h)), e)
  insert_if_lem m m' l r (some _) p e f h = absurd (cc h)
  insert_if_lem m m' l r none (some _) e f h = absurd (cc h)

  abbrev pub insert : Entries → L → ℕ → Option Entries
  insert m l r = insert_if m l r (at_left m.0 l) (at_right m.0 r) refl refl

  pub vacant_lem :
      (m : Entries) (l : L) (r : ℕ) (o : Option ℕ) (p : Option L) (e : at_left m.0 l ≡ o)
      (f : at_right m.0 r ≡ p)
      → o ≡ none
      → p ≡ none
      → (m' : Entries) × (insert_if m l r o p e f ≡ some m')
  vacant_lem m l r none none e f h k = (_, refl)
  vacant_lem m l r (some _) p e f h k = absurd (cc h)
  vacant_lem m l r none (some _) e f h k = absurd (cc k)

  pub at_new : (m : List (L × ℕ)) (l : L) (r : ℕ) → at_left ((l, r) ∷ m) l ≡ some r
  at_new m l r = rw (eq_refl l) refl

  -- The content at `l` was free, so what is found elsewhere is not at `l`.
  pub at_old :
      (m : List (L × ℕ)) (l x : L) (r v : ℕ)
      → at_left m l ≡ none
      → at_left m x ≡ some v
      → at_left ((l, r) ∷ m) x ≡ some v
  at_old m l x r v free h = elim (Bool-cases (eq l x)) [
    | inl e ↦ absurd (cc (free, h, eq→≡ l x e))
    | inr e ↦ rw e h
  ]

  pub at_origin :
      (m : List (L × ℕ)) (l x : L) (r v : ℕ)
      → at_left ((l, r) ∷ m) x ≡ some v
      → ((x ≡ l) × (v ≡ r)) ⊎ (at_left m x ≡ some v)
  at_origin m l x r v h = elim (Bool-cases (eq l x)) [
    | inl e ↦ inl (sym (eq→≡ l x e), sym (some_cong (rw e at h)))
    | inr e ↦ inr (rw e at h)
  ]

  abbrev pub entries : BiMap L
  entries = record {
    Map = Entries;
    empty = ([], IsOneToOne-empty);
    get_by_left = λ m l. at_left m.0 l;
    get_by_right = λ m r. at_right m.0 r;
    insert_no_overwrite = insert;
    empty_left = λ l. refl;
    right_of_left = λ m l r h. m.1.right l r h;
    left_of_right = λ m l r h. m.1.left l r h;
    vacant = λ m l r h k. vacant_lem m l r _ _ refl refl h k;
    inserted = λ m m' l r h. rw ((insert_if_lem m m' l r _ _ refl refl h).0) (at_new m.0 l r);
    kept = λ m m' l r x v h k.
        rw ((insert_if_lem m m' l r _ _ refl refl h).0)
          (at_old m.0 l x r v (insert_if_lem m m' l r _ _ refl refl h).1 k);
    origin = λ m m' l r x v h k.
        at_origin m.0 l x r v (rw ((insert_if_lem m m' l r _ _ refl refl h).0) at k);
  }
