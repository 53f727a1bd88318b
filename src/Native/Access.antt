-- ===== src/Native/Access.antt =====
-- wallet/src/services.rs and wallet/src/store.rs: the checks of URLs, names, paths and passwords.
use tinylayer_org.Base.{
  ℕ, Bytes, [], ◌∷◌, Bool, true, false, Option, some, none, Result, ok, ensure, ok_or, not, is_some,
  same, bytes_discrete, codes, ◌==◌, ◌&&◌, ◌||◌, ◌>>=◌, ◌>>◌, String, if◌then◌else◌,
}
use Prim.Native.Nat.{◌%◌}
use tinylayer_org.Client.Types.{NetworkId, mutinynet, mainnet, regtest}
use tinylayer_org.Wallet.Types.{Failure, message}

-- A parsed URL.
pub record Url : Type 0 where
  pub scheme : Bytes
  pub username : Bytes
  pub password : Option Bytes
  pub query : Option Bytes
  pub fragment : Option Bytes
  pub path : Bytes
  pub host : Option Bytes

-- What a path is, as `symlink_metadata` gives it, and its mode.
pub record Metadata : Type 0 where
  pub is_symlink : Bool
  pub is_dir : Bool
  pub is_file : Bool
  pub mode : ℕ

-- The URL library and the standard library's texts and addresses.
pub record Texts : Type 0 where
  pub parse_url : Bytes → Option Url
  -- A numeric address of the loopback interface.
  pub is_loopback_address : Bytes → Bool
  -- `eq_ignore_ascii_case("localhost")`
  pub is_localhost : Bytes → Bool
  pub trim : Bytes → Bytes

abbrev pub is_none : Option Bytes → Bool
is_none text = not (is_some text)

abbrev pub is_blank : Bytes → Bool
is_blank [] = true
is_blank (x ∷ xs) = false

unfoldable pub has_no_credentials : Url → Bool
has_no_credentials url = is_blank url.username && is_none url.password

unfoldable pub has_no_path : Url → Bool
has_no_path url = same bytes_discrete url.path (codes "/") || is_blank url.path

abbrev pub is_scheme : String → Url → Bool
is_scheme scheme url = same bytes_discrete url.scheme (codes scheme)

-- `metadata.permissions().mode() & 0o077 == 0`
abbrev pub is_private_mode : ℕ → Bool
is_private_mode mode = mode % 64 == 0

-- A path that is missing has no metadata. The last argument is whether a directory is asked for.
unfoldable pub ensure_private_path : Option Metadata → Bool → Result Failure Unit
ensure_private_path metadata directory = do
  found ← ok_or metadata (message "wallet path does not exist")
  ensure (not found.is_symlink) (message "wallet paths cannot be symlinks")
  if directory
      then ensure found.is_dir (message "wallet data path is not a directory")
      else ensure found.is_file (message "wallet data path is not a regular file")
  ensure (is_private_mode found.mode) (message "wallet path is accessible by group or other users")

-- A line break at the end of a password's file, and what is left without all of them.
abbrev pub is_break : ℕ → Bool
is_break byte = byte == 10 || byte == 13

unfoldable pub strip_breaks : Bytes → Bytes
strip_breaks [] = []
strip_breaks (byte ∷ rest) =
    let later = strip_breaks rest in if is_blank later && is_break byte then [] else byte ∷ later

unfoldable pub password_of_file : (Bytes → Bool) → Bytes → Result Failure Bytes
password_of_file utf8 bytes = do
  ensure (not (is_blank (strip_breaks bytes))) (message "wallet password cannot be empty")
  ensure (utf8 (strip_breaks bytes)) (message "password file is not UTF-8")
  ok (strip_breaks bytes)

unfoldable pub default_explorer_url : NetworkId → Option String
default_explorer_url mutinynet = some "https://mutinynet.com/api"
default_explorer_url mainnet = none
default_explorer_url regtest = none

module _ (t : Texts) where
  abbrev pub is_loopback_host : Option Bytes → Bool
  is_loopback_host none = false
  is_loopback_host (some host) = t.is_localhost host || t.is_loopback_address host

  unfoldable pub validate_core_config : Bytes → Option Metadata → Result Failure Unit
  validate_core_config rpc_url cookie = do
    url ← ok_or (t.parse_url rpc_url) (message "invalid Bitcoin Core RPC URL")
    ensure (is_scheme "http" url) (message "Bitcoin Core RPC URL must use local HTTP")
    ensure (has_no_credentials url) (message "Bitcoin Core RPC URL cannot contain credentials")
    ensure (is_none url.query && is_none url.fragment)
        (message "Bitcoin Core RPC URL cannot contain a query or fragment")
    ensure (has_no_path url)
        (message "Bitcoin Core RPC URL cannot contain a path; use --bitcoin-wallet")
    host ← ok_or url.host (message "Bitcoin Core RPC URL has no host")
    ensure (t.is_loopback_address host)
        (message "Bitcoin Core RPC is restricted to a numeric loopback address")
    metadata ← ok_or cookie (message "inspect Bitcoin Core cookie")
    ensure (metadata.is_file && not metadata.is_symlink)
        (message "Bitcoin Core cookie must be a regular file")
    ensure (is_private_mode metadata.mode)
        (message "Bitcoin Core cookie is accessible by group or other users")

  unfoldable pub validate_core_wallet_name : Bytes → Result Failure Unit
  validate_core_wallet_name wallet_name =
      ensure
        (not (is_blank (t.trim wallet_name))
          && same bytes_discrete wallet_name (t.trim wallet_name))
        (message "Bitcoin Core wallet name cannot be empty or surrounded by whitespace")

  unfoldable pub validate_explorer_url : Bytes → Result Failure Unit
  validate_explorer_url value = do
    url ← ok_or (t.parse_url value) (message "invalid explorer URL")
    ensure (is_scheme "https" url || (is_scheme "http" url && is_loopback_host url.host))
        (message "explorer URL must use HTTPS (plain HTTP is loopback-only)")
    ensure (has_no_credentials url) (message "explorer URL cannot contain credentials")
    ensure (is_none url.query && is_none url.fragment)
        (message "explorer URL cannot contain a query or fragment")

  unfoldable pub validate_plaintext_url : Bytes → Result Failure Unit
  validate_plaintext_url value = do
    url ← ok_or (t.parse_url value) (message "invalid plaintext enclave URL")
    ensure (is_scheme "http" url) (message "plaintext test enclave URL must use http")
    ensure (has_no_credentials url) (message "enclave URL cannot contain credentials")
    ensure (has_no_path url) (message "enclave URL cannot contain a path")
    host ← ok_or url.host (message "plaintext enclave URL has no host")
    ensure (is_loopback_host (some host))
        (message "plaintext enclave transport is restricted to loopback")
