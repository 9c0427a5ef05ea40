-- ===== src/Store/Memory.antt =====
-- Byte slices by reference. A slice is the address of its whole backing array; the heap lists the
-- arrays that have been made. Capacity and subslices are not modelled: the code takes none.
pub mod Copying
use native.Mathlib.Decide.{dec_lt}
use gardener_discovery_serve.Common.{
  ℕ, zero, suc, ◌≤◌, ◌<◌, ◌≡◌, refl, ap, ◌∙◌, Option, none, some, List, [], ◌∷◌, ◌++◌, arith, Bytes,
  length, get_elem?, set, replicate, length-append, get_elem?-append_left, get_elem?-append_here,
}

abbrev pub Heap : Type 0
Heap = List Bytes

abbrev pub Slice : Type 0
Slice = ℕ

abbrev pub M : Type 0 → Type 0
M A = Heap → A × Heap

abbrev pub pure : {A : Type 0} → A → M A
pure a h = (a, h)

infixl 5 ◌>>=◌ ◌>>◌
abbrev pub ◌>>=◌ : {A B : Type 0} → M A → (A → M B) → M B
◌>>=◌ m f h = let (a, h') = m h in f a h'

abbrev pub ◌>>◌ : {B : Type 0} → M (Unit {0}) → M B → M B
m >> k = m >>= λ _. k

abbrev pub bytes_of : Option Bytes → Bytes
bytes_of none = []
bytes_of (some b) = b

unfoldable pub contents : Slice → Heap → Bytes
contents a h = bytes_of (get_elem? h a)

-- `make([]byte, n)`
unfoldable pub make : ℕ → M Slice
make n h = (length h, h ++ (replicate n 0 ∷ []))

-- the first bytes of `to`, as many as there are in both, are those of `from`
abbrev pub overlay : Bytes → Bytes → Bytes
overlay [] from = []
overlay to [] = to
overlay (t ∷ to) (f ∷ from) = f ∷ overlay to from

-- `copy(dst, src)`
unfoldable pub copy : Slice → Slice → M (Unit {0})
unfolding contents
copy dst src h = (tt, set h dst (overlay (contents dst h) (contents src h)))

-- `s[i] = v`
unfoldable pub poke : Slice → ℕ → ℕ → Heap → Heap
unfolding contents
poke s i v h = set h s (set (contents s h) i v)

-- `out := make([]byte, len(s)); copy(out, s)`
unfoldable pub clone : Slice → M Slice
unfolding make copy
clone s h = (do out ← make (length (contents s h)); copy out s; pure out) h

-- What was allocated is still there, with the same bytes.
pub record Extends (h h' : Heap) : Type 0 where
  pub grows : length h ≤ length h'
  pub keeps : (a : ℕ) → a < length h → get_elem? h' a ≡ get_elem? h a

pub Extends-refl : (h : Heap) → Extends h h
Extends-refl h = record { grows = omega arith; keeps = λ a l. refl }

pub Extends-trans : {h h' h'' : Heap} → Extends h h' → Extends h' h'' → Extends h h''
Extends-trans p q = record {
  grows = omega (arith, p.grows, q.grows);
  keeps = λ a l. q.keeps a (omega (arith, p.grows)) ∙ p.keeps a l;
}

contents_beyond : (s : Slice) (h : Heap) → ¬ (s < length h) → contents s h ≡ []
unfolding contents
contents_beyond s [] l = refl
contents_beyond zero (b ∷ h) l = absurd (omega arith)
contents_beyond (suc s) (b ∷ h) l = contents_beyond s h (λ p. l (omega arith))

overlay_all : (n : ℕ) (from : Bytes) → length from ≡ n → overlay (replicate n 0) from ≡ from
overlay_all zero [] h = refl
overlay_all zero (f ∷ from) h = absurd (omega arith)
overlay_all (suc n) [] h = absurd (omega arith)
overlay_all (suc n) (f ∷ from) h = ground (arith, overlay_all n from)

set_last : (h : Heap) (x y : Bytes) → set (h ++ (x ∷ [])) (length h) y ≡ h ++ (y ∷ [])
set_last [] x y = refl
set_last (b ∷ h) x y = ap (λ t. b ∷ t) (set_last h x y)

pub contents_of_fresh : (h : Heap) (x : Bytes) → contents (length h) (h ++ (x ∷ [])) ≡ x
unfolding contents
contents_of_fresh h x = rw (get_elem?-append_here h [] x)

pub contents-append :
    (s : Slice) (h : Heap) (x : Bytes) → s < length h → contents s (h ++ (x ∷ [])) ≡ contents s h
unfolding contents
contents-append s h x l = rw (get_elem?-append_left h (x ∷ []) s l)

-- what `copy` writes into the zeroed array
overlay-contents :
    (s : Slice) (h : Heap)
    → overlay
        (replicate (length (contents s h)) 0)
        (contents s (h ++ (replicate (length (contents s h)) 0 ∷ [])))
      ≡ contents s h
overlay-contents s h = elim (dec_lt s (length h)) [
  | yes l ↦ rw (contents-append s h _ l) (overlay_all _ (contents s h) refl)
  | no l ↦ rw (contents_beyond s h l)
]

-- A clone is a new array with the same bytes, and nothing else changes.
pub clone_lem : (s : Slice) (h : Heap) → clone s h ≡ (length h, h ++ (contents s h ∷ []))
unfolding clone
clone_lem s h = rw (set_last, contents_of_fresh) (rw (overlay-contents s h))

pub Extends-append : (h : Heap) (x : Bytes) → Extends h (h ++ (x ∷ []))
Extends-append h x = record {
  grows = omega (arith, length-append h (x ∷ []));
  keeps = get_elem?-append_left h (x ∷ []);
}
