-- ===== src/TypeTools.antt =====
-- util/type_tools.hpp, and the byte buffers that the queues store parameters in. An object is its
-- representation in memory, a list of bytes; its type is known by its `sizeof`.
use qd_library.Prelude.{
  ℕ, zero, suc, ◌+◌, ◌≤◌, ◌≡◌, refl, ap, List, [], ◌∷◌, ◌++◌, map, arith, length, take, drop,
}

abbrev pub Object : Type 0
Object = List ℕ

-- `types<Ps...>`: the size of each type.
abbrev pub types : List Object → List ℕ
types = map length

-- `sumsizes<Ps...>::size`
abbrev pub sumsizes : List ℕ → ℕ
sumsizes [] = 0
sumsizes (t ∷ ts) = t + sumsizes ts

abbrev pub overlay : List ℕ → List ℕ → List ℕ
overlay [] buf = buf
overlay (b ∷ bs) [] = []
overlay (b ∷ bs) (x ∷ buf) = b ∷ overlay bs buf

-- Writing past the end of the buffer is dropped.
abbrev pub write_at : List ℕ → ℕ → List ℕ → List ℕ
write_at buf zero bs = overlay bs buf
write_at [] (suc o) bs = []
write_at (x ∷ buf) (suc o) bs = x ∷ write_at buf o bs

abbrev pub read_at : List ℕ → ℕ → ℕ → List ℕ
read_at buf o n = take n (drop o buf)

length-overlay : (bs buf : List ℕ) → length (overlay bs buf) ≡ length buf
length-overlay [] buf = refl
length-overlay (b ∷ bs) [] = refl
length-overlay (b ∷ bs) (x ∷ buf) = ap suc (length-overlay bs buf)

pub length-write_at : (buf : List ℕ) (o : ℕ) (bs : List ℕ) → length (write_at buf o bs) ≡ length buf
length-write_at buf zero bs = length-overlay bs buf
length-write_at [] (suc o) bs = refl
length-write_at (x ∷ buf) (suc o) bs = ap suc (length-write_at buf o bs)

overlay-append :
    (bs buf : List ℕ) → length bs ≤ length buf → overlay bs buf ≡ bs ++ drop (length bs) buf
overlay-append [] buf h = refl
overlay-append (b ∷ bs) [] h = absurd (omega arith)
overlay-append (b ∷ bs) (x ∷ buf) h = ap (◌∷◌ b) (overlay-append bs buf (omega arith))

-- What stands from the offset on after a write that fits.
pub drop-write_at :
    (buf : List ℕ) (o : ℕ) (bs : List ℕ)
    → o + length bs ≤ length buf
    → drop o (write_at buf o bs) ≡ bs ++ drop (length bs) (drop o buf)
drop-write_at buf zero bs h = overlay-append bs buf (omega arith)
drop-write_at [] (suc o) bs h = absurd (omega arith)
drop-write_at (x ∷ buf) (suc o) bs h = drop-write_at buf o bs (omega arith)

overlay_write :
    (buf cs bs : List ℕ) → write_at (overlay cs buf) (length cs) bs ≡ overlay (cs ++ bs) buf
overlay_write buf [] bs = refl
overlay_write [] (a ∷ cs) bs = refl
overlay_write (x ∷ buf) (a ∷ cs) bs = ap (◌∷◌ a) (overlay_write buf cs bs)

-- Two writes side by side are one.
pub write_at-write_at :
    (buf : List ℕ) (o : ℕ) (cs bs : List ℕ)
    → write_at (write_at buf o cs) (o + length cs) bs ≡ write_at buf o (cs ++ bs)
write_at-write_at buf zero cs bs =
    let e : 0 + length cs ≡ length cs = omega arith in rw e (overlay_write buf cs bs)
write_at-write_at [] (suc o) cs bs =
    let e : suc o + length cs ≡ suc (o + length cs) = omega arith in rw e
write_at-write_at (x ∷ buf) (suc o) cs bs =
    let e : suc o + length cs ≡ suc (o + length cs) = omega arith in
    rw e (ap (◌∷◌ x) (write_at-write_at buf o cs bs))
