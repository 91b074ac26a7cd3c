-- ===== src/Registry/Init.antt =====
-- internal/lockservice/lockservice.go with the `init` functions of the packages under internal/store, each
-- of which registers its store. Go runs them in an order that the imports give.
use quorum_quest.Prelude.{
  String, str_eq, ◌<>◌, Bool-cases, Option-cases, inl, inr, none, some, List, [], ◌∷◌, ◌≡◌, ◌∙◌,
  refl, sym, arith,
}
use quorum_quest.Program.{Result, ok, err}
use quorum_quest.Registry.{Constructor, Registry, find, register, new_store}

-- The same list in another order.
pub data Shuffled {A : Type 0} : List A → List A → Type 0 where
  same : (xs : List A) → Shuffled xs xs
  keep : (x : A) {xs ys : List A} → Shuffled xs ys → Shuffled (x ∷ xs) (x ∷ ys)
  exchange : (x y : A) (xs : List A) → Shuffled (x ∷ y ∷ xs) (y ∷ x ∷ xs)
  compose : {xs ys zs : List A} → Shuffled xs ys → Shuffled ys zs → Shuffled xs zs

abbrev nil_text : String
nil_text = "quorum-ques: Register constructor is nil"

abbrev twice_text : String → String
twice_text name = "quorum-ques: Register called twice for constructor " <> name

module _ {O E S : Type 0} where
  abbrev and_then :
      Result String (Registry O E S)
      → (Registry O E S → Result String (Registry O E S))
      → Result String (Registry O E S)
  and_then (ok r) f = f r
  and_then (err m) f = err m

  -- Registrations one after the other, up to one that panics.
  unfoldable pub register_all :
      List (String × Constructor O E S) → Registry O E S → Result String (Registry O E S)
  register_all [] r = ok r
  register_all ((name, c) ∷ rest) r = and_then (register name c r) (register_all rest)

  -- Two registries that have the same constructors under the same names.
  abbrev Agree : Registry O E S → Registry O E S → Type 0
  Agree r r' = (name : String) → find name r ≡ find name r'

  abbrev pub Alike : Result String (Registry O E S) → Result String (Registry O E S) → Type 0
  Alike (ok r) (ok r') = (name : String) → find name r ≡ find name r'
  Alike (err m) (err m') = Unit {0}
  Alike _ _ = ⊥

  Alike-trans : (p q r : Result String (Registry O E S)) → Alike p q → Alike q r → Alike p r
  Alike-trans (ok a) (ok b) (ok c) h k = λ name. h name ∙ k name
  Alike-trans (err a) (err b) (err c) h k = tt
  Alike-trans (ok a) (ok b) (err c) h k = absurd k
  Alike-trans (ok a) (err b) r h k = absurd h
  Alike-trans (err a) (ok b) r h k = absurd h
  Alike-trans (err a) (err b) (ok c) h k = absurd k

  register_free :
      (name : String) (c : O → Result E S) (r : Registry O E S)
      → find name r ≡ none
      → register name (some c) r ≡ ok ((name, some c) ∷ r)
  unfolding register
  register_free name c r h = rw (register, h) refl

  register_taken :
      (name : String) (c : O → Result E S) (d : Constructor O E S) (r : Registry O E S)
      → find name r ≡ some d
      → register name (some c) r ≡ err (twice_text name)
  unfolding register
  register_taken name c d r h = rw (register, h) refl

  -- A registration that always panics does so past another one.
  none_panics :
      (text name : String) (p : Result String (Registry O E S))
      → Alike (err text) (and_then p (register name none))
  unfolding register
  none_panics text name (ok r) = tt
  none_panics text name (err m) = tt

  taken_panics :
      (text name : String) (c : O → Result E S) (other : String) (d : Constructor O E S)
      (held : Constructor O E S) (r : Registry O E S)
      → find name r ≡ some held
      → Alike (err text) (and_then (register other d r) (register name (some c)))
  unfolding register find
  taken_panics text name c other none held r h = tt
  taken_panics text name c other (some d) held r h = ground arith

  Alike-sym : (p q : Result String (Registry O E S)) → Alike p q → Alike q p
  Alike-sym (ok a) (ok b) h = λ name. sym (h name)
  Alike-sym (err a) (err b) h = tt
  Alike-sym (ok a) (err b) h = absurd h
  Alike-sym (err a) (ok b) h = absurd h

  both_free :
      (m n : String) (c d : O → Result E S) (r r' : Registry O E S)
      → Agree r r'
      → find m r ≡ none
      → find n r ≡ none
      → Alike
          (and_then (register m (some c) r) (register n (some d)))
          (and_then (register n (some d) r') (register m (some c)))
  unfolding find
  both_free m n c d r r' h free_m free_n =
      rw (register_free m c r free_m, register_free n d r' (sym (h n) ∙ free_n))
        (elim (Bool-cases (str_eq m n)) [
          | inl e ↦
              rw
                (
                  register_taken n d (some c) ((m, some c) ∷ r) (ground arith),
                  register_taken m c (some d) ((n, some d) ∷ r') (ground arith),
                )
                tt
          | inr e ↦
              rw
                (
                  register_free n d ((m, some c) ∷ r) (ground arith),
                  register_free m c ((n, some d) ∷ r') (ground (arith, h m)),
                )
                (λ x. ground (arith, h x))
        ])

  -- Two registrations, one after the other, in both orders.
  two-Alike :
      (m n : String) (c d : Constructor O E S) (r r' : Registry O E S)
      → Agree r r'
      → Alike (and_then (register m c r) (register n d)) (and_then (register n d r') (register m c))
  unfolding register
  two-Alike m n none d r r' h = none_panics nil_text m (register n d r')
  two-Alike m n (some c) none r r' h =
      Alike-sym (err nil_text) _ (none_panics nil_text n (register m (some c) r))
  two-Alike m n (some c) (some d) r r' h = elim (Option-cases (find m r)) [
    | inr (held, taken) ↦
        rw (register_taken m c held r taken)
          (taken_panics (twice_text m) m c n (some d) held r' (sym (h m) ∙ taken))
    | inl free_m ↦ elim (Option-cases (find n r)) [
      | inr (held, taken) ↦ Alike-sym (and_then (register n (some d) r') (register m (some c))) _ (
          rw (register_taken n d held r' (sym (h n) ∙ taken))
            (taken_panics (twice_text n) n d m (some c) held r taken))
      | inl free_n ↦ both_free m n c d r r' h free_m free_n
    ]
  ]

  register-Alike :
      (name : String) (c : Constructor O E S) (r r' : Registry O E S)
      → Agree r r'
      → Alike (register name c r) (register name c r')
  unfolding register find
  register-Alike name none r r' h = tt
  register-Alike name (some c) r r' h = elim (Option-cases (find name r)) [
    | inr (held, taken) ↦
        rw
          (register_taken name c held r taken, register_taken name c held r' (sym (h name) ∙ taken))
          tt
    | inl free ↦
        rw (register_free name c r free, register_free name c r' (sym (h name) ∙ free))
          (λ x. ground (arith, h x))
  ]

  and_then-Alike :
      (p q : Result String (Registry O E S)) (f g : Registry O E S → Result String (Registry O E S))
      → Alike p q
      → ((r r' : Registry O E S) → Agree r r' → Alike (f r) (g r'))
      → Alike (and_then p f) (and_then q g)
  and_then-Alike (ok r) (ok r') f g h k = k r r' h
  and_then-Alike (err m) (err m') f g h k = tt
  and_then-Alike (ok r) (err m) f g h k = absurd h
  and_then-Alike (err m) (ok r) f g h k = absurd h

  and_then_assoc :
      (p : Result String (Registry O E S)) (f g : Registry O E S → Result String (Registry O E S))
      → and_then (and_then p f) g ≡ and_then p (λ r. and_then (f r) g)
  and_then_assoc (ok r) f g = refl
  and_then_assoc (err m) f g = refl

  register_all-Alike :
      (xs : List (String × Constructor O E S)) (r r' : Registry O E S)
      → Agree r r'
      → Alike (register_all xs r) (register_all xs r')
  unfolding register_all
  register_all-Alike [] r r' h = h
  register_all-Alike ((name, c) ∷ xs) r r' h =
      and_then-Alike (register name c r) (register name c r') _ _ (register-Alike name c r r' h)
        (register_all-Alike xs)

  Shuffled-Alike :
      {xs ys : List (String × Constructor O E S)}
      → Shuffled xs ys
      → (r r' : Registry O E S) → Agree r r'
      → Alike (register_all xs r) (register_all ys r')
  unfolding register_all
  Shuffled-Alike (same xs) r r' h = register_all-Alike xs r r' h
  Shuffled-Alike (keep (name, c) s) r r' h =
      and_then-Alike (register name c r) (register name c r') _ _ (register-Alike name c r r' h)
        (Shuffled-Alike s)
  Shuffled-Alike (exchange (m, c) (n, d) xs) r r' h =
      rw
        (
          sym (and_then_assoc (register m c r) (register n d) (register_all xs)),
          sym (and_then_assoc (register n d r') (register m c) (register_all xs)),
        )
        (and_then-Alike _ _ (register_all xs) (register_all xs) (two-Alike m n c d r r' h)
          (register_all-Alike xs))
  Shuffled-Alike (compose {xs} {ys} {zs} s t) r r' h =
      Alike-trans (register_all xs r) (register_all ys r) (register_all zs r')
        (Shuffled-Alike s r r (λ name. refl)) (Shuffled-Alike t r r' h)

  -- What two runs of the registrations leave: both have panicked, or both give the same for every name
  -- and all options.
  abbrev pub SameStores : Result String (Registry O E S) → Result String (Registry O E S) → Type 0
  SameStores (ok r) (ok r') =
      (name : String) (options : O) → new_store name options r ≡ new_store name options r'
  SameStores (err m) (err m') = Unit {0}
  SameStores _ _ = ⊥

  SameStores-of : (p q : Result String (Registry O E S)) → Alike p q → SameStores p q
  unfolding new_store
  SameStores-of (ok r) (ok r') h = λ name options. rw (new_store, h name) refl
  SameStores-of (err m) (err m') h = tt
  SameStores-of (ok r) (err m) h = h
  SameStores-of (err m) (ok r) h = h

  -- In whatever order the packages register their constructors: either a registration panics in every
  -- order, or none does in any, and then NewStore gives the same for every name and all options.
  pub init_order :
      (xs ys : List (String × Constructor O E S))
      → Shuffled xs ys
      → SameStores (register_all xs []) (register_all ys [])
  init_order xs ys s = SameStores-of _ _ (Shuffled-Alike s [] [] (λ name. refl))
