-- ===== src/Rbtree/Sorted.antt =====
-- Lists of nodes by ascending key, as the finite map that they stand for.
use rsmalloc.Common.{
  ℕ, ◌<◌, ◌≡◌, refl, Option, none, some, List, [], ◌∷◌, ◌++◌, All, ◌==◌, if◌then◌else◌, arith,
}
use rsmalloc.Rbtree.{Cell, BigAllocMeta}

abbrev pub Below : ℕ → List Cell → Type 0
Below key xs = All (λ (x : Cell). x.key < key) xs

abbrev pub Above : ℕ → List Cell → Type 0
Above key xs = All (λ (x : Cell). key < x.key) xs

abbrev pub Sorted : List Cell → Type 0
Sorted [] = Unit
Sorted (x ∷ xs) = Above x.key xs × Sorted xs

abbrev pub lookup : ℕ → List Cell → Option BigAllocMeta
lookup key [] = none
lookup key (x ∷ xs) = if key == x.key then some x.meta else lookup key xs

pub Above-le : (j k : ℕ) (xs : List Cell) → j < k → Above k xs → Above j xs
Above-le j k [] h a = tt
Above-le j k (x ∷ xs) h a = (omega (arith, a.0), Above-le j k xs h a.1)

pub Below-le : (j k : ℕ) (xs : List Cell) → j < k → Below j xs → Below k xs
Below-le j k [] h a = tt
Below-le j k (x ∷ xs) h a = (omega (arith, a.0), Below-le j k xs h a.1)

pub Above-append : (k : ℕ) (xs ys : List Cell) → Above k xs → Above k ys → Above k (xs ++ ys)
Above-append k [] ys a b = b
Above-append k (x ∷ xs) ys a b = (a.0, Above-append k xs ys a.1 b)

pub Below-append : (k : ℕ) (xs ys : List Cell) → Below k xs → Below k ys → Below k (xs ++ ys)
Below-append k [] ys a b = b
Below-append k (x ∷ xs) ys a b = (a.0, Below-append k xs ys a.1 b)

Above-parts : (k : ℕ) (xs ys : List Cell) → Above k (xs ++ ys) → Above k xs × Above k ys
Above-parts k [] ys a = (tt, a)
Above-parts k (x ∷ xs) ys a = let (b, c) = Above-parts k xs ys a.1 in ((a.0, b), c)

-- A sorted list, cut in two.
pub Sorted-parts : (xs ys : List Cell) → Sorted (xs ++ ys) → Sorted xs × Sorted ys
Sorted-parts [] ys s = (tt, s)
Sorted-parts (x ∷ xs) ys s =
    let (a, b) = Sorted-parts xs ys s.1 in (((Above-parts x.key xs ys s.0).0, a), b)

-- The nodes before a node of a sorted list.
pub Sorted-Below :
    (xs : List Cell) (x : Cell) (ys : List Cell) → Sorted (xs ++ (x ∷ ys)) → Below x.key xs
Sorted-Below [] x ys s = tt
Sorted-Below (y ∷ xs) x ys s = ((Above-parts y.key xs (x ∷ ys) s.0).1.0, Sorted-Below xs x ys s.1)

-- Two sorted lists on the two sides of a key.
pub Sorted-append :
    (k : ℕ) (xs ys : List Cell)
    → Sorted xs
    → Below k xs
    → Above k ys
    → Sorted ys
    → Sorted (xs ++ ys)
Sorted-append k [] ys s b a t = t
Sorted-append k (x ∷ xs) ys s b a t =
    (Above-append x.key xs ys s.0 (Above-le x.key k ys b.0 a), Sorted-append k xs ys s.1 b.1 a t)

pub Sorted-insert :
    (xs : List Cell) (x : Cell) (ys : List Cell)
    → Sorted xs
    → Below x.key xs
    → Above x.key ys
    → Sorted ys
    → Sorted (xs ++ (x ∷ ys))
Sorted-insert [] x ys s b a t = (a, t)
Sorted-insert (y ∷ xs) x ys s b a t = (
  Above-append y.key xs (x ∷ ys) s.0 (b.0, Above-le y.key x.key ys b.0 a),
  Sorted-insert xs x ys s.1 b.1 a t,
)

-- A node among nodes of other keys.
pub lookup-insert :
    (j : ℕ) (xs : List Cell) (x : Cell) (ys : List Cell)
    → Below x.key xs
    → lookup j (xs ++ (x ∷ ys)) ≡ (if x.key == j then some x.meta else lookup j (xs ++ ys))
lookup-insert j [] x ys b = ground arith
lookup-insert j (y ∷ xs) x ys b = ground (arith, lookup-insert j xs x ys b.1, b.0)

pub lookup-Above : (k : ℕ) (xs : List Cell) → Above k xs → lookup k xs ≡ none
lookup-Above k [] a = refl
lookup-Above k (x ∷ xs) a = ground (arith, lookup-Above k xs a.1, a.0)

-- A key between two lists is in neither.
pub lookup_between :
    (k : ℕ) (xs ys : List Cell) → Below k xs → Above k ys → lookup k (xs ++ ys) ≡ none
lookup_between k [] ys b a = lookup-Above k ys a
lookup_between k (x ∷ xs) ys b a = ground (arith, lookup_between k xs ys b.1 a, b.0)
