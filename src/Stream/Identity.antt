-- ===== src/Stream/Identity.antt =====
-- src/stream_channels.rs: the hellos that are valid, and the hello of a request.
use Prim.Native.String.{len}
use astra_shell.Prelude.{
  ℕ, ◌≡◌, ◌≢◌, ◌≤◌, ◌↔◌, refl, String, true, not, ◌&&◌, ◌||◌, ◌==◌, str_eq, str_eq_iff, not-str_eq,
  le→leb, zero, suc, some, arith,
}
use astra_shell.Prelude.Int.{ℤ, pos, negsuc, variant, int_eq→eq, int_eq_refl}
use astra_shell.Prelude.Result.{ok, chain_parts}
use astra_shell.Stream.Request.{Request}
use astra_shell.Stream.Channel.{
  StreamChannelKind, control, terminal, forward, unspecified, file, channel_kinds, kind_code,
  StreamHello, Channel, request_channel, is_unspecified_kind, is_control_kind, needs_handle,
  hello_eq, hello_of, validate_hello, hello_for_request, validate_request,
}

pub hello_eq→eq : (a b : StreamHello) → hello_eq a b ≡ true → a ≡ b
unfolding hello_eq
hello_eq→eq a b h =
    let version : a.version ≡ b.version = ground arith in
    let kind : a.channel_kind ≡ b.channel_kind =
      ground (arith, int_eq→eq a.channel_kind b.channel_kind) in
    let handle : a.handle ≡ b.handle = ground (arith, str_eq_iff a.handle b.handle) in
    let epoch : a.epoch ≡ b.epoch = ground arith in
    let id : a.request_id ≡ b.request_id = ground (arith, str_eq_iff a.request_id b.request_id) in
    λ i. record {
      version = version i;
      channel_kind = kind i;
      handle = handle i;
      epoch = epoch i;
      request_id = id i;
    }

pub hello_eq_refl : (a : StreamHello) → hello_eq a a ≡ true
unfolding hello_eq
hello_eq_refl a = ground (
  arith,
  int_eq_refl a.channel_kind,
  (str_eq_iff a.handle a.handle).1 refl,
  (str_eq_iff a.request_id a.request_id).1 refl,
)

-- A kind of stream, and whether a handle goes with it.
pub data Handled : StreamChannelKind → String → Type 0 where
  as_control : {handle : String} → handle ≡ "" → Handled control handle
  as_file : {handle : String} → Handled file handle
  as_terminal : {handle : String} → handle ≢ "" → Handled terminal handle
  as_forward : {handle : String} → handle ≢ "" → Handled forward handle

module _ (encoded_len : StreamHello → ℕ) where
  -- A hello that opens a stream of this kind in this epoch.
  pub record Opens (epoch : ℕ) (hello : StreamHello) (kind : StreamChannelKind) : Type 0 where
    pub is_version : hello.version ≡ 1
    pub in_epoch : hello.epoch ≡ epoch
    pub has_epoch : epoch ≢ 0
    pub is_kind : hello.channel_kind ≡ kind_code kind
    pub has_id : hello.request_id ≢ ""
    pub short_id : len hello.request_id ≤ 128
    pub short_handle : len hello.handle ≤ 128
    pub handled : Handled kind hello.handle
    pub short : encoded_len hello ≤ 1024

  -- The hello that is made for a request is accepted with it.
  pub validate_request-hello_for_request :
      (request : Request) (epoch : ℕ) (hello : StreamHello)
      → hello_for_request encoded_len request epoch ≡ ok hello
      → validate_request encoded_len hello request epoch ≡ ok tt
  unfolding hello_for_request validate_request
  validate_request-hello_for_request request epoch hello h =
      let (channel, e, h1) = chain_parts (request_channel request) _ h in
      let (kind, valid, h2) =
        chain_parts (validate_hello encoded_len (hello_of channel request epoch) epoch) _ h1 in
      let same : hello ≡ hello_of channel request epoch = cc in
      rw same (simp (e, valid, hello_eq_refl (hello_of channel request epoch)))

  -- A hello that is accepted with a request is the one of the channel that the request needs, in the epoch.
  pub validate_request-hello_of :
      (request : Request) (epoch : ℕ) (hello : StreamHello)
      → validate_request encoded_len hello request epoch ≡ ok tt
      → (channel : Channel) × (request_channel request ≡ ok channel)
        × (hello ≡ hello_of channel request epoch)
  unfolding hello_for_request validate_request
  validate_request-hello_of request epoch hello h =
      let (kind, valid, h1) = chain_parts (validate_hello encoded_len hello epoch) _ h in
      let (expected, called, h2) = chain_parts (hello_for_request encoded_len request epoch) _ h1 in
      let (channel, e, h3) = chain_parts (request_channel request) _ called in
      let (kind, valid, h4) =
        chain_parts (validate_hello encoded_len (hello_of channel request epoch) epoch) _ h3 in
      let same : hello ≡ expected = hello_eq→eq hello expected (ground arith) in (channel, e, cc)

  Handled-of :
      (kind : StreamChannelKind) (handle : String)
      → not (is_unspecified_kind kind) ≡ true
      → (not (needs_handle kind) || not (str_eq handle "")) ≡ true
      → (not (is_control_kind kind) || str_eq handle "") ≡ true
      → Handled kind handle
  Handled-of unspecified handle u n c = cc
  Handled-of control handle u n c = as_control ((str_eq_iff handle "").0 c)
  Handled-of terminal handle u n c = as_terminal ((not-str_eq handle "").0 n)
  Handled-of file handle u n c = as_file
  Handled-of forward handle u n c = as_forward ((not-str_eq handle "").0 n)

  variant-kind_code :
      (code : ℤ) (kind : StreamChannelKind)
      → variant channel_kinds code ≡ some kind
      → code ≡ kind_code kind
  variant-kind_code (negsuc n) kind h = cc
  variant-kind_code (pos zero) kind h = let same : kind ≡ unspecified = cc in rw same refl
  variant-kind_code (pos (suc zero)) kind h = let same : kind ≡ control = cc in rw same refl
  variant-kind_code (pos (suc (suc zero))) kind h = let same : kind ≡ terminal = cc in rw same refl
  variant-kind_code (pos (suc (suc (suc zero)))) kind h =
      let same : kind ≡ file = cc in rw same refl
  variant-kind_code (pos (suc (suc (suc (suc zero))))) kind h =
      let same : kind ≡ forward = cc in rw same refl
  variant-kind_code (pos (suc (suc (suc (suc (suc n)))))) kind h = cc

  kind_code-variant :
      (kind : StreamChannelKind) → variant channel_kinds (kind_code kind) ≡ some kind
  kind_code-variant unspecified = refl
  kind_code-variant control = refl
  kind_code-variant terminal = refl
  kind_code-variant file = refl
  kind_code-variant forward = refl

  validate_hello-Opens :
      (hello : StreamHello) (epoch : ℕ) (kind : StreamChannelKind)
      → validate_hello encoded_len hello epoch ≡ ok kind
      → Opens epoch hello kind
  unfolding validate_hello
  validate_hello-Opens hello epoch kind h =
      let is_variant : variant channel_kinds hello.channel_kind ≡ some kind = ground arith in
      record {
        is_version = ground arith;
        in_epoch = ground arith;
        has_epoch = ground arith;
        is_kind = variant-kind_code hello.channel_kind kind is_variant;
        has_id = (not-str_eq hello.request_id "").0 (ground arith);
        short_id = ground arith;
        short_handle = ground arith;
        handled = Handled-of kind hello.handle (ground arith) (ground arith) (ground arith);
        short = ground arith;
      }

  Handled-checks :
      (kind : StreamChannelKind) (handle : String)
      → Handled kind handle
      → (not (is_unspecified_kind kind) ≡ true)
        × ((not (needs_handle kind) || not (str_eq handle "")) ≡ true)
        × ((not (is_control_kind kind) || str_eq handle "") ≡ true)
  Handled-checks kind handle (as_control e) = (refl, refl, (str_eq_iff handle "").1 e)
  Handled-checks kind handle as_file = (refl, refl, refl)
  Handled-checks kind handle (as_terminal ne) = (refl, (not-str_eq handle "").1 ne, refl)
  Handled-checks kind handle (as_forward ne) = (refl, (not-str_eq handle "").1 ne, refl)

  Opens-validate_hello :
      (hello : StreamHello) (epoch : ℕ) (kind : StreamChannelKind)
      → Opens epoch hello kind
      → validate_hello encoded_len hello epoch ≡ ok kind
  unfolding validate_hello
  Opens-validate_hello hello epoch kind o =
      let (u, n, c) = Handled-checks kind hello.handle o.handled in
      let id = (not-str_eq hello.request_id "").1 o.has_id in
      let is_variant : variant channel_kinds hello.channel_kind ≡ some kind =
        rw o.is_kind (kind_code-variant kind) in
      let in_epoch : (not (epoch == 0) && hello.epoch == epoch) ≡ true =
        ground (arith, o.in_epoch, o.has_epoch) in
      simp (
        o.is_version,
        in_epoch,
        is_variant,
        u,
        n,
        c,
        id,
        le→leb _ _ o.short_id,
        le→leb _ _ o.short_handle,
        le→leb _ _ o.short,
      )

  -- A hello is accepted, and gives that kind, exactly if it is of version 1, of the expected epoch, which is
  -- not zero, and of that kind, with a request id of 1 to 128 bytes, a handle of at most 128 bytes and at most
  -- 1024 bytes encoded. The handle is empty for the control kind, nonempty for the terminal and the forward
  -- kind and free for the file kind; no other kind is accepted.
  pub validate_hello_iff :
      (hello : StreamHello) (epoch : ℕ) (kind : StreamChannelKind)
      → (validate_hello encoded_len hello epoch ≡ ok kind) ↔ Opens epoch hello kind
  validate_hello_iff hello epoch kind =
      (validate_hello-Opens hello epoch kind, Opens-validate_hello hello epoch kind)
