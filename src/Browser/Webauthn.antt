-- ===== src/Browser/Webauthn.antt =====
-- The WebAuthn options that the server sends and the assertion that goes back.
use mathlib.Core.Option
use oxidt_kit.Kit.{
  ℕ, Bool, true, false, nonempty, Text, Option, none, some, List, [], ◌∷◌, if◌then◌else◌,
}
use oxidt_kit.Base64.{b64url_to_buffer, buffer_to_b64url}

-- A credential descriptor; of its properties only `id` is converted. `Id` is a base64url text
-- in what the server sends and a buffer in what the browser is given.
pub record Descriptor (Bin : Type 0) : Type 0 where
  pub id : Bin
  pub kind : Text

pub record Options (Bin Challenge : Type 0) : Type 0 where
  pub challenge : Option Challenge
  pub allow_credentials : Option (List (Descriptor Bin))

-- The W3C JSON shape, bare or in a `publicKey` wrapper.
pub data RawOptions : Type 0 where
  wrapped : Options Text Text → RawOptions
  bare : Options Text Text → RawOptions

-- `raw.publicKey || raw`.
unfoldable pub unwrap : RawOptions → Options Text Text
unwrap (wrapped o) = o
unwrap (bare o) = o

-- A challenge that is the empty text is falsy and stays as it came.
pub data Challenge : Type 0 where
  buffer : List ℕ → Challenge
  unconverted : Text → Challenge

abbrev pub Request : Type 0
Request = Options (List ℕ) Challenge

module _ (atob : Text → Option (List ℕ)) where
  unfoldable pub convert_challenge : Option Text → Option (Option Challenge)
  convert_challenge none = some none
  convert_challenge (some t) =
      if nonempty t
      then Option.map (λ b. some (buffer b)) (b64url_to_buffer atob t)
      else some (some (unconverted t))

  -- The `map` over the descriptors; `none` where `atob` throws.
  unfoldable pub convert_credentials : List (Descriptor Text) → Option (List (Descriptor (List ℕ)))
  convert_credentials [] = some []
  convert_credentials (c ∷ cs) =
      Option.bind (b64url_to_buffer atob c.id)
        (λ b. Option.map (λ rest. record { id = b; kind = c.kind } ∷ rest) (convert_credentials cs))

  credentials_of :
      Bool → Option (List (Descriptor Text)) → Option (Option (List (Descriptor (List ℕ))))
  credentials_of true cs = some (some [])
  credentials_of false none = some none
  credentials_of false (some cs) = Option.map some (convert_credentials cs)

  -- `none` where `atob` throws on a text that is not base64.
  unfoldable pub request_options : RawOptions → Bool → Option Request
  unfolding credentials_of
  request_options raw discoverable =
      let o = unwrap raw in
      Option.bind (convert_challenge o.challenge) (λ c.
        Option.map (λ cs. record { challenge = c; allow_credentials = cs })
          (credentials_of discoverable o.allow_credentials))

-- What `navigator.credentials.get` resolves to, with its buffers.
pub record Credential (Bin : Type 0) : Type 0 where
  pub id : Text
  pub raw_id : Bin
  pub kind : Text
  pub authenticator_data : Bin
  pub client_data_json : Bin
  pub signature : Bin
  pub user_handle : Option Bin

unfoldable pub assertion_json : (List ℕ → Text) → Credential (List ℕ) → Credential Text
assertion_json btoa c = record {
  id = c.id;
  raw_id = buffer_to_b64url btoa c.raw_id;
  kind = c.kind;
  authenticator_data = buffer_to_b64url btoa c.authenticator_data;
  client_data_json = buffer_to_b64url btoa c.client_data_json;
  signature = buffer_to_b64url btoa c.signature;
  user_handle = Option.map (buffer_to_b64url btoa) c.user_handle;
}

-- The creation options of an enrollment, with the same optional wrapper. `user_id` is there when
-- `user.id` is a string.
pub record Creation (Bin Challenge : Type 0) : Type 0 where
  pub challenge : Option Challenge
  pub user_id : Option Bin
  pub exclude_credentials : Option (List (Descriptor Bin))

pub data RawCreation : Type 0 where
  wrapped_creation : Creation Text Text → RawCreation
  bare_creation : Creation Text Text → RawCreation

abbrev unwrap_creation : RawCreation → Creation Text Text
unwrap_creation (wrapped_creation o) = o
unwrap_creation (bare_creation o) = o

abbrev optional : {A B : Type 0} → (A → Option B) → Option A → Option (Option B)
optional f none = some none
optional f (some a) = Option.map some (f a)

module _ (atob : Text → Option (List ℕ)) where
  -- The conversions of `createPasskey`; `none` where `atob` throws.
  unfoldable pub creation_options : RawCreation → Option (Creation (List ℕ) Challenge)
  creation_options raw =
      let o = unwrap_creation raw in
      Option.bind (convert_challenge atob o.challenge) (λ c.
        Option.bind (optional (b64url_to_buffer atob) o.user_id) (λ u.
          Option.map (λ cs. record { challenge = c; user_id = u; exclude_credentials = cs })
            (optional (convert_credentials atob) o.exclude_credentials)))

-- What `navigator.credentials.create` resolves to.
pub record Attestation (Bin : Type 0) : Type 0 where
  pub id : Text
  pub raw_id : Bin
  pub kind : Text
  pub attestation_object : Bin
  pub client_data_json : Bin
  pub transports : List Text

-- The credential that `createPasskey` returns.
unfoldable pub attestation_json : (List ℕ → Text) → Attestation (List ℕ) → Attestation Text
attestation_json btoa c = record {
  id = c.id;
  raw_id = buffer_to_b64url btoa c.raw_id;
  kind = c.kind;
  attestation_object = buffer_to_b64url btoa c.attestation_object;
  client_data_json = buffer_to_b64url btoa c.client_data_json;
  transports = c.transports;
}
