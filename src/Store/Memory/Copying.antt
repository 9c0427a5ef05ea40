-- ===== src/Store/Memory/Copying.antt =====
-- Laws of `make` and `copy`, one at a time.
use gardener_discovery_serve.Common.{
  ◌+◌, ◌≤◌, ◌<◌, ◌≡◌, ◌≢◌, refl, ◌∙◌, [], ◌∷◌, arith, Bytes, length, replicate, length-append,
  length-set, get_elem?-set_ne, get_elem?-set_self, ℕ,
}
use gardener_discovery_serve.Store.Memory.{
  Heap, Slice, contents, make, copy, overlay, Extends, Extends-append, contents_of_fresh,
}

pub length-make : (n : ℕ) (h : Heap) → length (make n h).1 ≡ length h + 1
unfolding make
length-make n h = length-append h _

pub make-Extends : (n : ℕ) (h : Heap) → Extends h (make n h).1
unfolding make
make-Extends n h = Extends-append h _

pub contents-make : (n : ℕ) (h : Heap) → contents (make n h).0 (make n h).1 ≡ replicate n 0
unfolding make
contents-make n h = contents_of_fresh h _

pub length-copy : (dst src : Slice) (h : Heap) → length (copy dst src h).1 ≡ length h
unfolding copy
length-copy dst src h = length-set h dst _

-- A copy into an array that is newer than `h₀` leaves what `h₀` holds.
pub copy-Extends :
    {h₀ h : Heap} (dst src : Slice) → Extends h₀ h → length h₀ ≤ dst → Extends h₀ (copy dst src h).1
unfolding copy
copy-Extends {h₀} {h} dst src e l = record {
  grows = omega (arith, e.grows, length-set h dst _);
  keeps = λ a b. get_elem?-set_ne h dst a _ (omega arith) ∙ e.keeps a b;
}

pub contents-Extends :
    {h h' : Heap} (a : Slice) → Extends h h' → a < length h → contents a h' ≡ contents a h
unfolding contents
contents-Extends a e l = rw (e.keeps a l)

overlay_same : (to from : Bytes) → length to ≡ length from → overlay to from ≡ from
overlay_same [] [] e = refl
overlay_same [] (f ∷ from) e = absurd (omega arith)
overlay_same (t ∷ to) [] e = absurd (omega arith)
overlay_same (t ∷ to) (f ∷ from) e = ground (arith, overlay_same to from)

pub contents-copy_self :
    (dst src : Slice) (h : Heap)
    → dst < length h
    → length (contents dst h) ≡ length (contents src h)
    → contents dst (copy dst src h).1 ≡ contents src h
unfolding copy contents
contents-copy_self dst src h l e = rw (get_elem?-set_self h dst _ l) (overlay_same _ _ e)

pub contents-copy_ne :
    (dst src a : Slice) (h : Heap) → dst ≢ a → contents a (copy dst src h).1 ≡ contents a h
unfolding copy contents
contents-copy_ne dst src a h n = rw (get_elem?-set_ne h dst a _ n)
