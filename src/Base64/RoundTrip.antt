-- ===== src/Base64/RoundTrip.antt =====
-- What goes out by `bufferToB64url` comes back by `b64urlToBuffer`.
use oxidt_kit.Kit.{
  ℕ, zero, suc, ◌-◌, ◌%◌, ◌<◌, ◌≡◌, ◌≢◌, refl, ap, ◌∙◌, Text, Option, some, List, [], ◌∷◌, ◌++◌,
  length, All, arith,
}
use oxidt_kit.Base64.{replace, remove, repeat, b64url_to_buffer, buffer_to_b64url}

-- The characters of the base64 alphabet without the padding.
abbrev pub IsPlain : ℕ → Type 0
IsPlain c = (c ≢ b'-') × (c ≢ b'_') × (c ≢ b'=')

-- The base64 of RFC 4648 section 4, as the HTML standard asks of `btoa`: characters of the
-- alphabet, then the padding that completes a multiple of four; and `atob` is its inverse.
pub record IsBase64 (atob : Text → Option (List ℕ)) (btoa : List ℕ → Text) : Type 0 where
  pub body : List ℕ → Text
  pub plain : (bytes : List ℕ) → All (λ c. c < 256) bytes → All IsPlain (body bytes)
  pub padded :
      (bytes : List ℕ)
      → All (λ c. c < 256) bytes
      → btoa bytes ≡ body bytes ++ repeat b'=' ((4 - length (body bytes) % 4) % 4)
  pub inverse : (bytes : List ℕ) → All (λ c. c < 256) bytes → atob (btoa bytes) ≡ some bytes

abbrev out : Text → Text
out s = remove b'=' (replace b'/' b'_' (replace b'+' b'-' s))

abbrev back : Text → Text
back s = replace b'_' b'/' (replace b'-' b'+' s)

back-out : (s : Text) → All IsPlain s → back (out s) ≡ s
unfolding replace remove
back-out [] h = refl
back-out (c ∷ s) h = ground (arith, back-out s h.1)

out-append : (s t : Text) → out (s ++ t) ≡ out s ++ out t
unfolding replace remove
out-append [] t = refl
out-append (c ∷ s) t = ground (arith, out-append s t)

out-padding : (n : ℕ) → out (repeat b'=' n) ≡ []
unfolding replace remove repeat
out-padding zero = refl
out-padding (suc n) = out-padding n

append-nil' : (s : Text) → s ++ [] ≡ s
append-nil' [] = refl
append-nil' (c ∷ s) = ap (c ∷◌) (append-nil' s)

out-btoa : (s : Text) (n : ℕ) → All IsPlain s → back (out (s ++ repeat b'=' n)) ≡ s
out-btoa s n h =
    ap back (out-append s (repeat b'=' n) ∙ ap (out s ++◌) (out-padding n) ∙ append-nil' (out s))
    ∙ back-out s h

-- The script's text of a buffer decodes to the buffer, although the padding was taken off.
pub b64url_to_buffer-buffer_to_b64url :
    (atob : Text → Option (List ℕ)) (btoa : List ℕ → Text) (standard : IsBase64 atob btoa)
    (bytes : List ℕ)
    → All (λ c. c < 256) bytes
    → b64url_to_buffer atob (buffer_to_b64url btoa bytes) ≡ some bytes
unfolding b64url_to_buffer buffer_to_b64url
b64url_to_buffer-buffer_to_b64url atob btoa standard bytes small =
    rw (standard.padded bytes small, restored)
      (rw (← standard.padded bytes small) (standard.inverse bytes small))
  where
    restored :
        back (out (standard.body bytes ++ repeat b'=' ((4 - length (standard.body bytes) % 4) % 4)))
        ≡ standard.body bytes
    restored = out-btoa (standard.body bytes) _ (standard.plain bytes small)
