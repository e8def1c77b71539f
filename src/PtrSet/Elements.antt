-- ===== src/PtrSet/Elements.antt =====
-- What the nodes in order say of the elements: these are in descending order.
use libbase.Base.{
  ℕ, ◌≤◌, ◌<◌, Bool, true, false, not, ◌≡◌, refl, arith, ◌∙◌, ap, sym, List, [], ◌∷◌, ltb, ◌==◌,
  ==_refl, if◌then◌else◌, Bool-cases, inl, inr, eq_of_==,
}
use libbase.Memory.{Ptr, null}
use libbase.Avltree.Search.Cut.{IsCut, All, is_above, at_key, insert_sorted}
use libbase.Avltree.Delete.Without.{without}
use libbase.PtrSet.{elem_compare}
use libbase.PtrSet.Compare.{
  IsNear, is_zero-elem_compare, negative-elem_compare, positive-elem_compare,
}

abbrev pub elems : (Ptr → ℕ) → List Ptr → List ℕ
elems elem [] = []
elems elem (n ∷ ns) = elem n ∷ elems elem ns

-- A set as the descending list of its elements.
abbrev pub has : ℕ → List ℕ → Bool
has e [] = false
has e (x ∷ xs) = if e == x then true else has e xs

abbrev pub insert_element : ℕ → List ℕ → List ℕ
insert_element e [] = e ∷ []
insert_element e (x ∷ xs) = if ltb e x then x ∷ insert_element e xs else e ∷ x ∷ xs

abbrev pub remove_element : ℕ → List ℕ → List ℕ
remove_element e [] = []
remove_element e (x ∷ xs) = if e == x then xs else x ∷ remove_element e xs

abbrev pub AllLess : ℕ → List ℕ → Type 0
AllLess e [] = Unit
AllLess e (x ∷ xs) = (x < e) × AllLess e xs

abbrev pub IsDescending : List ℕ → Type 0
IsDescending [] = Unit
IsDescending (x ∷ xs) = AllLess x xs × IsDescending xs

abbrev pub AllNear : ℕ → List ℕ → Type 0
AllNear lo [] = Unit
AllNear lo (x ∷ xs) = IsNear lo x × AllNear lo xs

-- None of the addresses is NULL.
abbrev pub NoNull : List Ptr → Type 0
NoNull [] = Unit
NoNull (n ∷ ns) = ((n == null) ≡ false) × NoNull ns

AllLess-insert_element :
    (e x : ℕ) (xs : List ℕ) → e < x → AllLess x xs → AllLess x (insert_element e xs)
AllLess-insert_element e x [] lt a = (lt, tt)
AllLess-insert_element e x (y ∷ ys) lt a = elim (Bool-cases (ltb e y)) [
  | inl h ↦ rw h (a.0, AllLess-insert_element e x ys lt a.1)
  | inr h ↦ rw h (lt, (a.0, a.1))
]

AllLess-trans : (x e : ℕ) (xs : List ℕ) → x ≤ e → AllLess x xs → AllLess e xs
AllLess-trans x e [] le a = tt
AllLess-trans x e (y ∷ ys) le a = (omega (arith, a.0), AllLess-trans x e ys le a.1)

pub insert_element-IsDescending :
    (e : ℕ) (xs : List ℕ) → has e xs ≡ false → IsDescending xs → IsDescending (insert_element e xs)
insert_element-IsDescending e [] n d = (tt, tt)
insert_element-IsDescending e (x ∷ xs) n d = elim (Bool-cases (e == x)) [
  | inl h ↦ let no = rw h at n in absurd (ground arith)
  | inr h ↦
      let n' = rw h at n in
      elim (Bool-cases (ltb e x)) [
        | inl g ↦ rw g (
          AllLess-insert_element e x xs (ground arith) d.0,
          insert_element-IsDescending e xs n' d.1,
        )
        | inr g ↦
            let lt : x < e = ground arith in
            rw g ((lt, AllLess-trans x e xs (omega arith) d.0), (d.0, d.1))
      ]
]

AllLess-remove_element : (e x : ℕ) (xs : List ℕ) → AllLess x xs → AllLess x (remove_element e xs)
AllLess-remove_element e x [] a = tt
AllLess-remove_element e x (y ∷ ys) a = elim (Bool-cases (e == y)) [
  | inl h ↦ rw h (a.1)
  | inr h ↦ rw h (a.0, AllLess-remove_element e x ys a.1)
]

pub remove_element-IsDescending :
    (e : ℕ) (xs : List ℕ) → IsDescending xs → IsDescending (remove_element e xs)
remove_element-IsDescending e [] d = tt
remove_element-IsDescending e (x ∷ xs) d = elim (Bool-cases (e == x)) [
  | inl h ↦ rw h (d.1)
  | inr h ↦ rw h (AllLess-remove_element e x xs d.0, remove_element-IsDescending e xs d.1)
]

module _ (elem : Ptr → ℕ) (lo e : ℕ) (ne : IsNear lo e) where
  All-above :
      (x : ℕ) (ns : List Ptr)
      → x ≤ e
      → AllNear lo (elems elem ns)
      → AllLess x (elems elem ns)
      → All (elem_compare elem) e (is_above (elem_compare elem) e) ns
  All-above x [] le a d = tt
  All-above x (n ∷ ns) le a d =
      let lt : elem n < e = omega (arith, d.0) in
      (positive-elem_compare elem lo e n ne a.0 ∙ ground arith, All-above x ns le a.1 d.1)

  pub elems-IsCut :
      (ns : List Ptr)
      → AllNear lo (elems elem ns)
      → IsDescending (elems elem ns)
      → IsCut (elem_compare elem) e ns
  elems-IsCut [] a d = tt
  elems-IsCut (n ∷ ns) a d = (
    (λ h.
        let g = sym (negative-elem_compare elem lo e n ne a.0) ∙ h in
        All-above (elem n) ns (ground arith) a.1 d.0),
    elems-IsCut ns a.1 d.1,
  )

  -- The search finds NULL if the element is not there.
  pub has-at_key :
      (ns : List Ptr)
      → AllNear lo (elems elem ns)
      → NoNull ns
      → not (at_key (elem_compare elem) e ns == null) ≡ has e (elems elem ns)
  has-at_key [] a n = refl
  has-at_key (m ∷ ns) a n = elim (Bool-cases (e == elem m)) [
    | inl h ↦ rw (is_zero-elem_compare elem lo e m ne a.0, h, n.0) refl
    | inr h ↦ rw (is_zero-elem_compare elem lo e m ne a.0, h) (has-at_key ns a.1 n.1)
  ]

  pub elems-insert_sorted :
      (p : Ptr) (ns : List Ptr)
      → elem p ≡ e
      → AllNear lo (elems elem ns)
      → elems elem (insert_sorted (elem_compare elem) e p ns) ≡ insert_element e (elems elem ns)
  elems-insert_sorted p [] g a = rw g refl
  elems-insert_sorted p (n ∷ ns) g a = elim (Bool-cases (ltb e (elem n))) [
    | inl h ↦
        rw (negative-elem_compare elem lo e n ne a.0, h)
          (ap (λ xs. elem n ∷ xs) (elems-insert_sorted p ns g a.1))
    | inr h ↦ rw (negative-elem_compare elem lo e n ne a.0, h, g) refl
  ]

  elem-at_key :
      (ns : List Ptr)
      → AllNear lo (elems elem ns)
      → has e (elems elem ns) ≡ true
      → elem (at_key (elem_compare elem) e ns) ≡ e
  elem-at_key [] a h = absurd (ground arith)
  elem-at_key (n ∷ ns) a h = elim (Bool-cases (e == elem n)) [
    | inl g ↦ rw (is_zero-elem_compare elem lo e n ne a.0, g) (sym (eq_of_== e (elem n) g))
    | inr g ↦
        let h' = rw g at h in
        rw (is_zero-elem_compare elem lo e n ne a.0, g) (elem-at_key ns a.1 h')
  ]

  -- A node with another element is another node.
  other : (n p : Ptr) → elem p ≡ e → (e == elem n) ≡ false → (n == p) ≡ false
  other n p k g = elim (Bool-cases (n == p)) [
    | inl i ↦ let no = rw (eq_of_== n p i, k, ==_refl e) at g in absurd (ground arith)
    | inr i ↦ i
  ]

  pub elems-without :
      (ns : List Ptr)
      → AllNear lo (elems elem ns)
      → has e (elems elem ns) ≡ true
      → elems elem (without (at_key (elem_compare elem) e ns) ns) ≡ remove_element e (elems elem ns)
  elems-without [] a h = absurd (ground arith)
  elems-without (n ∷ ns) a h = elim (Bool-cases (e == elem n)) [
    | inl g ↦ rw (is_zero-elem_compare elem lo e n ne a.0, g, ==_refl n) refl
    | inr g ↦
        let h' = rw g at h in
        let k = elem-at_key ns a.1 h' in
        let o : (n == at_key (elem_compare elem) e ns) ≡ false =
          other n (at_key (elem_compare elem) e ns) k g in
        let y : at_key (elem_compare elem) e (n ∷ ns) ≡ at_key (elem_compare elem) e ns =
          rw (is_zero-elem_compare elem lo e n ne a.0, g) refl in
        ap (λ p. elems elem (without p (n ∷ ns))) y
        ∙ rw (o, g) (ap (λ xs. elem n ∷ xs) (elems-without ns a.1 h'))
  ]

pub remove_element_missing : (e : ℕ) (xs : List ℕ) → has e xs ≡ false → remove_element e xs ≡ xs
remove_element_missing e [] h = refl
remove_element_missing e (x ∷ xs) h = elim (Bool-cases (e == x)) [
  | inl g ↦ let no = rw g at h in absurd (ground arith)
  | inr g ↦ let h' = rw g at h in rw g (ap (λ ys. x ∷ ys) (remove_element_missing e xs h'))
]

pub AllNear-insert_element :
    (lo e : ℕ) (xs : List ℕ) → IsNear lo e → AllNear lo xs → AllNear lo (insert_element e xs)
AllNear-insert_element lo e [] n a = (n, tt)
AllNear-insert_element lo e (x ∷ xs) n a = elim (Bool-cases (ltb e x)) [
  | inl h ↦ rw h (a.0, AllNear-insert_element lo e xs n a.1)
  | inr h ↦ rw h (n, (a.0, a.1))
]

pub AllNear-remove_element :
    (lo e : ℕ) (xs : List ℕ) → AllNear lo xs → AllNear lo (remove_element e xs)
AllNear-remove_element lo e [] a = tt
AllNear-remove_element lo e (x ∷ xs) a = elim (Bool-cases (e == x)) [
  | inl h ↦ rw h (a.1)
  | inr h ↦ rw h (a.0, AllNear-remove_element lo e xs a.1)
]
