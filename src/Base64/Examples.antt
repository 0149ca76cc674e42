-- ===== src/Base64/Examples.antt =====
-- The round trip with the base64 of RFC 4648.
use oxidt_kit.Kit.{◌≡◌, refl, [], ◌∷◌, some, codes, arith}
use oxidt_kit.Base64.{b64url_to_buffer, buffer_to_b64url}
use oxidt_kit.Base64.RoundTrip.{b64url_to_buffer-buffer_to_b64url}
use oxidt_kit.Base64.Standard.{atob, btoa, char_of, atob-btoa-IsBase64}

url_alphabet : buffer_to_b64url btoa (251 ∷ 239 ∷ 255 ∷ 1 ∷ []) ≡ codes "--__AQ"
unfolding buffer_to_b64url btoa char_of
url_alphabet = refl

b64url_to_buffer-buffer_to_b64url_example :
    b64url_to_buffer atob (buffer_to_b64url btoa (251 ∷ 239 ∷ 255 ∷ 1 ∷ []))
    ≡ some (251 ∷ 239 ∷ 255 ∷ 1 ∷ [])
b64url_to_buffer-buffer_to_b64url_example =
    b64url_to_buffer-buffer_to_b64url atob btoa atob-btoa-IsBase64 (251 ∷ 239 ∷ 255 ∷ 1 ∷ [])
      (omega arith)
