-- ===== src/Worker/Dict.antt =====
-- Python's dict as the list of its entries, in the order of their insertion.
use duck_launcher.Base.{
  ◌≡◌, refl, ◌∙◌, ap, inl, inr, Bool, true, false, Option, none, some, List, [], ◌∷◌, ◌++◌,
  coalesce, is_some, if◌then◌else◌, arith, Bool-cases, subst, Option-cases,
}

module _ {ℓ κ} {K : Type ℓ} {V : Type κ} (same : K → K → Bool) where
  -- dict.get(key); `key in dict` says that there is one.
  unfoldable pub find : K → List (K × V) → Option V
  find key [] = none
  find key ((k, v) ∷ rest) = if same key k then some v else find key rest

  -- dict.get(key, default)
  abbrev pub find_or : V → K → List (K × V) → V
  find_or default key dict = coalesce (find key dict) default

  -- `if key not in dict: dict[key] = value`, and dict.setdefault(key, value)
  unfoldable pub set_default : K → V → List (K × V) → List (K × V)
  unfolding find
  set_default key value dict = if is_some (find key dict) then dict else dict ++ (key, value) ∷ []

  -- A change of the value of a key that is there.
  unfoldable pub modify : K → (V → V) → List (K × V) → List (K × V)
  modify key f [] = []
  modify key f ((k, v) ∷ rest) = if same key k then (k, f v) ∷ rest else (k, v) ∷ modify key f rest

  module _ (same-refl : (a : K) → same a a ≡ true)
      (same-eq : (a b : K) → same a b ≡ true → a ≡ b) where
    find-append_key :
        (k : K) (v : V) (dict : List (K × V))
        → find k dict ≡ none
        → find k (dict ++ (k, v) ∷ []) ≡ some v
    unfolding find
    find-append_key k v [] n = rw (same-refl k) refl
    find-append_key k v ((i, w) ∷ rest) n = elim (Bool-cases (same k i)) [
      | inl t ↦ absurd (ground (arith, t, n))
      | inr t ↦ rw t (find-append_key k v rest (rw t at n))
    ]

    find-append_other :
        (j k : K) (v : V) (dict : List (K × V))
        → same j k ≡ false
        → find j (dict ++ (k, v) ∷ []) ≡ find j dict
    unfolding find
    find-append_other j k v [] ne = rw ne refl
    find-append_other j k v ((i, w) ∷ rest) ne = elim (Bool-cases (same j i)) [
      | inl t ↦ rw t refl
      | inr t ↦ rw t (find-append_other j k v rest ne)
    ]

    find-modify_key :
        (k : K) (f : V → V) (dict : List (K × V))
        → find k (modify k f dict) ≡ elim (find k dict) [ some w ↦ some (f w) | none ↦ none ]
    unfolding find modify
    find-modify_key k f [] = refl
    find-modify_key k f ((i, w) ∷ rest) = elim (Bool-cases (same k i)) [
      | inl t ↦ rw (t, t) refl
      | inr t ↦ rw (t, t) (find-modify_key k f rest)
    ]

    find-modify_other :
        (j k : K) (f : V → V) (dict : List (K × V))
        → same j k ≡ false
        → find j (modify k f dict) ≡ find j dict
    unfolding find modify
    find-modify_other j k f [] ne = refl
    find-modify_other j k f ((i, w) ∷ rest) ne = elim (Bool-cases (same k i)) [
      | inl t ↦
          let apart : same j i ≡ false = subst (λ x. same j x ≡ false) (same-eq k i t) ne in
          rw (t, apart) refl
      | inr t ↦ elim (Bool-cases (same j i)) [
        | inl h ↦ rw (t, h) refl
        | inr h ↦ rw (t, h) (find-modify_other j k f rest ne)
      ]
    ]

    -- An entry after a change of another, or of its own, which is made first where it is missing.
    pub find-upsert :
        (j k : K) (default : V) (f : V → V) (dict : List (K × V))
        → find j (modify k f (set_default k default dict))
          ≡ (if same j k then some (f (find_or default k dict)) else find j dict)
    unfolding set_default
    find-upsert j k default f dict = elim (Bool-cases (same j k)) [
      | inl t ↦
          let e : j ≡ k = same-eq j k t in
          elim (Option-cases (find k dict)) [
            | inl n ↦
                rw
                  (
                    t,
                    e,
                    set_default,
                    n,
                    find-modify_key k f (dict ++ (k, default) ∷ []),
                    find-append_key k default dict n,
                  )
                  refl
            | inr (v, n) ↦ rw (t, e, set_default, n, find-modify_key k f dict, n) refl
          ]
      | inr t ↦ elim (Option-cases (find k dict)) [
        | inl n ↦
            rw (t, set_default, n)
              (find-modify_other j k f (dict ++ (k, default) ∷ []) t
                ∙ find-append_other j k default dict t)
        | inr (v, n) ↦ rw (t, set_default, n) (find-modify_other j k f dict t)
      ]
    ]

    pub find_or-upsert :
        (j k : K) (default : V) (f : V → V) (dict : List (K × V))
        → find_or default j (modify k f (set_default k default dict))
          ≡ (if same j k then f (find_or default k dict) else find_or default j dict)
    find_or-upsert j k default f dict = elim (Bool-cases (same j k)) [
      | inl t ↦ ap (λ o. coalesce o default) (find-upsert j k default f dict) ∙ rw t refl
      | inr t ↦ ap (λ o. coalesce o default) (find-upsert j k default f dict) ∙ rw t refl
    ]
