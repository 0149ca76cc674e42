-- ===== src/Base64.antt =====
-- The base64url conversions of both login scripts: `b64urlToBuffer` and `bufferToB64url` of
-- crates/oxidt-auth/src/topcoat/local_login.js (ferriskey_login.js has the same text).
-- `atob` and `btoa` belong to the browser and are arguments.
pub mod RoundTrip
pub mod Standard
mod Examples
use oxidt_kit.Kit.{
  ℕ, zero, suc, ◌-◌, ◌%◌, ◌≡◌, refl, Text, codes, Option, none, some, List, [], ◌∷◌, ◌++◌, ◌==◌,
  length, if◌then◌else◌,
}

-- `s.replace(/a/g, "b")` for single characters.
unfoldable pub replace : ℕ → ℕ → Text → Text
replace a b [] = []
replace a b (c ∷ s) = (if c == a then b else c) ∷ replace a b s

-- `s.replace(/a/g, "")`.
unfoldable pub remove : ℕ → Text → Text
remove a [] = []
remove a (c ∷ s) = let rest = remove a s in if c == a then rest else c ∷ rest

-- `"c".repeat(n)`.
unfoldable pub repeat : ℕ → ℕ → Text
repeat c zero = []
repeat c (suc n) = c ∷ repeat c n

-- A buffer is the list of its bytes, and so is the binary string that `atob` and `btoa` speak of.
unfoldable pub b64url_to_buffer : (Text → Option (List ℕ)) → Text → Option (List ℕ)
unfolding replace repeat
b64url_to_buffer atob s =
    let b64 = replace b'_' b'/' (replace b'-' b'+' s) in
    atob (b64 ++ repeat b'=' ((4 - length b64 % 4) % 4))

unfoldable pub buffer_to_b64url : (List ℕ → Text) → List ℕ → Text
unfolding replace remove
buffer_to_b64url btoa bytes = remove b'=' (replace b'/' b'_' (replace b'+' b'-' (btoa bytes)))

padding_test : b64url_to_buffer some (codes "a-_") ≡ some (codes "a+/=")
unfolding b64url_to_buffer
padding_test = refl
