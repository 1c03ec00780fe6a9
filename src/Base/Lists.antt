-- ===== src/Base/Lists.antt =====
-- Lists measured by native numbers, under the library's names.
use Prim.Native.Nat.{ℕ, zero, suc, ◌+◌, ◌-◌, ◌≤◌}
use mathlib.Core.Path.{◌≡◌, refl, sym, ap, ap₂, ◌∙◌}
use mathlib.Core.List.{List, [], ◌∷◌, ◌++◌, map, reverse, reverse-cons}
use native.Mathlib.Omega.{arith}

module _ {ℓ} {A : Type ℓ} where
  abbrev pub length : List A → ℕ
  length [] = 0
  length (x ∷ xs) = suc (length xs)

  abbrev pub take : ℕ → List A → List A
  take zero xs = []
  take (suc n) [] = []
  take (suc n) (x ∷ xs) = x ∷ take n xs

  abbrev pub drop : ℕ → List A → List A
  drop zero xs = xs
  drop (suc n) [] = []
  drop (suc n) (x ∷ xs) = drop n xs

  abbrev pub replicate : ℕ → A → List A
  replicate zero a = []
  replicate (suc n) a = a ∷ replicate n a

  abbrev pub get_or : List A → ℕ → A → A
  get_or [] i d = d
  get_or (x ∷ xs) zero d = x
  get_or (x ∷ xs) (suc i) d = get_or xs i d

  -- A write out of bounds changes nothing.
  abbrev pub set : List A → ℕ → A → List A
  set [] i v = []
  set (x ∷ xs) zero v = v ∷ xs
  set (x ∷ xs) (suc i) v = x ∷ set xs i v

  pub length-append : (xs ys : List A) → length (xs ++ ys) ≡ length xs + length ys
  length-append [] ys = omega arith
  length-append (x ∷ xs) ys = omega (arith, length-append xs ys)

  pub length-replicate : (n : ℕ) (a : A) → length (replicate n a) ≡ n
  length-replicate zero a = refl
  length-replicate (suc n) a = ap suc (length-replicate n a)

module _ {ℓ} {A : Type ℓ} where
  pub length-map {κ} : {B : Type κ} (xs : List A) (f : A → B) → length (map f xs) ≡ length xs
  length-map [] f = refl
  length-map (x ∷ xs) f = ap suc (length-map xs f)

module _ {ℓ} {A : Type ℓ} where
  pub length-reverse : (xs : List A) → length (reverse xs) ≡ length xs
  length-reverse [] = refl
  length-reverse (x ∷ xs) =
      ap length (reverse-cons x xs)
      ∙ omega (arith, length-append (reverse xs) (x ∷ []), length-reverse xs)

  pub take-append : (xs ys : List A) → take (length xs) (xs ++ ys) ≡ xs
  take-append [] ys = refl
  take-append (x ∷ xs) ys = ap (λ (t : List A). x ∷ t) (take-append xs ys)

  pub drop-append : (xs ys : List A) → drop (length xs) (xs ++ ys) ≡ ys
  drop-append [] ys = refl
  drop-append (x ∷ xs) ys = drop-append xs ys

  pub take_all : (xs : List A) → take (length xs) xs ≡ xs
  take_all [] = refl
  take_all (x ∷ xs) = ap (λ (t : List A). x ∷ t) (take_all xs)

  pub drop_all : (xs : List A) → drop (length xs) xs ≡ []
  drop_all [] = refl
  drop_all (x ∷ xs) = drop_all xs

  pub drop-drop : (n m : ℕ) (xs : List A) → drop n (drop m xs) ≡ drop (m + n) xs
  drop-drop n zero xs = ap (λ (k : ℕ). drop k xs) (omega arith)
  drop-drop n (suc m) [] = drop-nil n ∙ sym (ap (λ (k : ℕ). drop {A = A} k []) (suc_plus m n))
    where
      drop-nil : (k : ℕ) → drop {A = A} k [] ≡ []
      drop-nil zero = refl
      drop-nil (suc k) = refl

      suc_plus : (a b : ℕ) → suc a + b ≡ suc (a + b)
      suc_plus a b = omega arith
  drop-drop n (suc m) (x ∷ xs) = drop-drop n m xs ∙ ap (λ (k : ℕ). drop k (x ∷ xs)) (suc_plus m n)
    where
      suc_plus : (a b : ℕ) → suc (a + b) ≡ suc a + b
      suc_plus a b = omega arith

  pub length-take : (n : ℕ) (xs : List A) → n ≤ length xs → length (take n xs) ≡ n
  length-take zero xs h = refl
  length-take (suc n) [] h = absurd (omega arith)
  length-take (suc n) (x ∷ xs) h = ap suc (length-take n xs (omega arith))

  pub length-drop : (n : ℕ) (xs : List A) → length (drop n xs) ≡ length xs - n
  length-drop zero xs = omega arith
  length-drop (suc n) [] = omega arith
  length-drop (suc n) (x ∷ xs) = omega (arith, length-drop n xs)

module _ {ℓ κ} {A : Type ℓ} {B : Type κ} where
  pub map-map {ι} :
      {C : Type ι} (g : B → C) (f : A → B) (xs : List A) → map g (map f xs) ≡ map (λ x. g (f x)) xs
  map-map g f [] = refl
  map-map g f (x ∷ xs) = ap (λ t. g (f x) ∷ t) (map-map g f xs)

  pub map-cong : (f g : A → B) → ((x : A) → f x ≡ g x) → (xs : List A) → map f xs ≡ map g xs
  map-cong f g h [] = refl
  map-cong f g h (x ∷ xs) = ap₂ (λ y t. y ∷ t) (h x) (map-cong f g h xs)

module _ {ℓ} {A : Type ℓ} where
  pub drop-take : (k j : ℕ) (xs : List A) → drop k (take j xs) ≡ take (j - k) (drop k xs)
  drop-take zero j xs = ap (λ (n : ℕ). take n xs) (omega arith)
  drop-take (suc k) zero xs = ap (λ (n : ℕ). take {A = A} n (drop (suc k) xs)) {x = 0} (omega arith)
  drop-take (suc k) (suc j) [] = drop-nil (j - k)
    where
      drop-nil : (n : ℕ) → [] ≡ take {A = A} (suc j - suc k) []
      drop-nil n = nil (suc j - suc k)
        where
          nil : (m : ℕ) → [] ≡ take {A = A} m []
          nil zero = refl
          nil (suc m) = refl
  drop-take (suc k) (suc j) (x ∷ xs) =
      drop-take k j xs ∙ ap (λ (n : ℕ). take n (drop k xs)) (omega arith)

  pub take-take : (k j : ℕ) (xs : List A) → k ≤ j → take k (take j xs) ≡ take k xs
  take-take zero j xs h = refl
  take-take (suc k) zero xs h = absurd (omega arith)
  take-take (suc k) (suc j) [] h = refl
  take-take (suc k) (suc j) (x ∷ xs) h = ap (λ (t : List A). x ∷ t) (take-take k j xs (omega arith))

  pub take-plus : (k j : ℕ) (xs : List A) → take (k + j) xs ≡ take k xs ++ take j (drop k xs)
  take-plus zero j xs = ap (λ (n : ℕ). take n xs) (omega arith)
  take-plus (suc k) j [] = ap (λ (n : ℕ). take {A = A} n []) (suc_plus k) ∙ sym (nil j)
    where
      suc_plus : (a : ℕ) → suc a + j ≡ suc (a + j)
      suc_plus a = omega arith

      nil : (m : ℕ) → take {A = A} m [] ≡ []
      nil zero = refl
      nil (suc m) = refl
  take-plus (suc k) j (x ∷ xs) =
      ap (λ (n : ℕ). take n (x ∷ xs)) (suc_plus k) ∙ ap (λ (t : List A). x ∷ t) (take-plus k j xs)
    where
      suc_plus : (a : ℕ) → suc a + j ≡ suc (a + j)
      suc_plus a = omega arith
