-- ===== src/Sync/TransferManager/TempFile.antt =====
-- The temporary file of a download: what writing one chunk at its place does to the bytes.
use veritas_sync.Base.{
  ℕ, zero, suc, ◌+◌, ◌≤◌, ◌<◌, ◌≡◌, refl, ◌≢◌, ◌⊎◌, inl, inr, [], ◌∷◌, some, arith, Str, str_key,
  nat_key, length, get_elem?,
}

-- Writing over the front of a text.
unfoldable pub overlay : Str → Str → Str
overlay [] content = content
overlay (x ∷ text) [] = x ∷ overlay text []
overlay (x ∷ text) (y ∷ content) = x ∷ overlay text content

unfoldable pub write_from : ℕ → Str → Str → Str
unfolding overlay
write_from zero text content = overlay text content
write_from (suc offset) text [] = 0 ∷ write_from offset text []
write_from (suc offset) text (y ∷ content) = y ∷ write_from offset text content

-- `seekp` and `write`: a gap before the text is filled with zeros; writing nothing changes nothing.
unfoldable pub write_at : ℕ → Str → Str → Str
unfolding write_from
write_at offset [] content = content
write_at offset (x ∷ text) content = write_from offset (x ∷ text) content

get-overlay :
    (text content : Str) (j x : ℕ)
    → get_elem? text j ≡ some x
    → get_elem? (overlay text content) j ≡ some x
unfolding overlay
get-overlay [] content j x e = cc
get-overlay (y ∷ text) [] zero x e = e
get-overlay (y ∷ text) [] (suc j) x e = get-overlay text [] j x e
get-overlay (y ∷ text) (z ∷ content) zero x e = e
get-overlay (y ∷ text) (z ∷ content) (suc j) x e = get-overlay text content j x e

get-overlay_after :
    (text content : Str) (k x : ℕ)
    → length text ≤ k
    → get_elem? content k ≡ some x
    → get_elem? (overlay text content) k ≡ some x
unfolding overlay
get-overlay_after [] content k x h e = e
get-overlay_after (y ∷ text) [] k x h e = cc
get-overlay_after (y ∷ text) (z ∷ content) zero x h e = absurd (omega (arith, h))
get-overlay_after (y ∷ text) (z ∷ content) (suc k) x h e =
    get-overlay_after text content k x (omega (arith, h)) e

length-overlay :
    (text content : Str) (n : ℕ)
    → length text ≤ n
    → length content ≤ n
    → length (overlay text content) ≤ n
unfolding overlay
length-overlay [] content n h k = k
length-overlay (y ∷ text) [] zero h k = absurd (omega (arith, h))
length-overlay (y ∷ text) [] (suc n) h k =
    omega (arith, length-overlay text [] n (omega (arith, h)) (omega arith))
length-overlay (y ∷ text) (z ∷ content) zero h k = absurd (omega (arith, h))
length-overlay (y ∷ text) (z ∷ content) (suc n) h k =
    omega (arith, length-overlay text content n (omega (arith, h)) (omega (arith, k)))

get-write_from :
    (offset : ℕ) (text content : Str) (j k x : ℕ)
    → k ≡ offset + j
    → get_elem? text j ≡ some x
    → get_elem? (write_from offset text content) k ≡ some x
unfolding write_from
get-write_from zero text content j k x h e =
    let h' : k ≡ j = omega (arith, h) in rw h' (get-overlay text content j x e)
get-write_from (suc offset) text content j zero x h e = absurd (omega (arith, h))
get-write_from (suc offset) text [] j (suc k) x h e =
    get-write_from offset text [] j k x (omega (arith, h)) e
get-write_from (suc offset) text (y ∷ content) j (suc k) x h e =
    get-write_from offset text content j k x (omega (arith, h)) e

get-write_from_before :
    (offset : ℕ) (text content : Str) (k x : ℕ)
    → k < offset
    → get_elem? content k ≡ some x
    → get_elem? (write_from offset text content) k ≡ some x
unfolding write_from
get-write_from_before zero text content k x h e = absurd (omega (arith, h))
get-write_from_before (suc offset) text [] k x h e = cc
get-write_from_before (suc offset) text (y ∷ content) zero x h e = e
get-write_from_before (suc offset) text (y ∷ content) (suc k) x h e =
    get-write_from_before offset text content k x (omega (arith, h)) e

get-write_from_after :
    (offset : ℕ) (text content : Str) (k x : ℕ)
    → offset + length text ≤ k
    → get_elem? content k ≡ some x
    → get_elem? (write_from offset text content) k ≡ some x
unfolding write_from
get-write_from_after zero text content k x h e =
    get-overlay_after text content k x (omega (arith, h)) e
get-write_from_after (suc offset) text [] k x h e = cc
get-write_from_after (suc offset) text (y ∷ content) zero x h e = absurd (omega (arith, h))
get-write_from_after (suc offset) text (y ∷ content) (suc k) x h e =
    get-write_from_after offset text content k x (omega (arith, h)) e

length-write_from :
    (offset : ℕ) (text content : Str) (n : ℕ)
    → offset + length text ≤ n
    → length content ≤ n
    → length (write_from offset text content) ≤ n
unfolding write_from
length-write_from zero text content n h k = length-overlay text content n (omega (arith, h)) k
length-write_from (suc offset) text [] zero h k = absurd (omega (arith, h))
length-write_from (suc offset) text [] (suc n) h k =
    omega (arith, length-write_from offset text [] n (omega (arith, h)) (omega arith))
length-write_from (suc offset) text (y ∷ content) zero h k = absurd (omega (arith, h))
length-write_from (suc offset) text (y ∷ content) (suc n) h k =
    omega (arith, length-write_from offset text content n (omega (arith, h)) (omega (arith, k)))

-- The bytes that are written stand at their place.
pub get-write_at :
    (offset : ℕ) (text content : Str) (j x : ℕ)
    → get_elem? text j ≡ some x
    → get_elem? (write_at offset text content) (offset + j) ≡ some x
unfolding write_at
get-write_at offset [] content j x e = cc
get-write_at offset (y ∷ text) content j x e =
    get-write_from offset (y ∷ text) content j (offset + j) x refl e

-- The bytes at other places stay.
pub get-write_at_other :
    (offset : ℕ) (text content : Str) (k x : ℕ)
    → (k < offset) ⊎ (offset + length text ≤ k)
    → get_elem? content k ≡ some x
    → get_elem? (write_at offset text content) k ≡ some x
unfolding write_at
get-write_at_other offset [] content k x h e = e
get-write_at_other offset (y ∷ text) content k x (inl h) e =
    get-write_from_before offset (y ∷ text) content k x h e
get-write_at_other offset (y ∷ text) content k x (inr h) e =
    get-write_from_after offset (y ∷ text) content k x h e

pub length-write_at :
    (offset : ℕ) (text content : Str) (n : ℕ)
    → (text ≢ [] → offset + length text ≤ n)
    → length content ≤ n
    → length (write_at offset text content) ≤ n
unfolding write_at
length-write_at offset [] content n h k = k
length-write_at offset (y ∷ text) content n h k =
    length-write_from offset (y ∷ text) content n (h (λ e. cc)) k

-- A text that has every byte of another, and is not longer, is the other.
pub same_bytes :
    (content bytes_of : Str)
    → length content ≤ length bytes_of
    → ((k x : ℕ) → get_elem? bytes_of k ≡ some x → get_elem? content k ≡ some x)
    → content ≡ bytes_of
same_bytes [] [] h f = refl
same_bytes [] (y ∷ bytes_of) h f = let e = f 0 y refl in cc
same_bytes (x ∷ content) [] h f = absurd (omega (arith, h))
same_bytes (x ∷ content) (y ∷ bytes_of) h f =
    let head : x ≡ y = some_eq x y (f 0 y refl) in
    rw (head, same_bytes content bytes_of (omega (arith, h)) (λ k z e. f (suc k) z e)) refl
  where
    some_eq : (a b : ℕ) → some a ≡ some b → a ≡ b
    some_eq a b e = cc
