-- ===== src/Cipher.antt =====
-- service/cipher_list.go: the list of ciphers of one port, in order of recent use.
-- A `*list.Element` is a number, and `Element.Value` is read in a store; the store outlives the
-- list, as the elements of a snapshot do. The mutex makes each method one step.
pub mod Snapshot
pub mod Recency
mod Tests
use outline_ss_server.Prelude.{
  ℕ, zero, suc, ◌+◌, ◌-◌, Bool, true, false, not, ◌&&◌, Option, none, some, List, [], ◌∷◌, leb, ltb,
  ◌==◌, if◌then◌else◌, length, set, replicate,
}
use outline_ss_server.Net.Ip.{bytes_eq}
use outline_ss_server.Salt.{
  Hashes, ServerSaltGenerator, random, new_server_salt_generator, server_salt_mark_len,
}

-- `netip.Addr`: the zero value, an IPv4 address, an IPv6 address with its zone.
pub data Addr : Type 0 where
  no_addr : Addr
  v4 : List ℕ → Addr
  v6 : List ℕ → List ℕ → Addr

-- `==` of `netip.Addr`.
unfoldable pub addr_eq : Addr → Addr → Bool
unfolding bytes_eq
addr_eq no_addr no_addr = true
addr_eq (v4 a) (v4 b) = bytes_eq a b
addr_eq (v6 a z) (v6 b y) = bytes_eq a b && bytes_eq z y
addr_eq _ _ = false

-- What the program uses of the Shadowsocks library on a key: `SaltSize`, `TagSize` and `Unpack`,
-- which gives the plaintext of a salted packet, or an error.
pub record Shadowsocks (Key : Type 0) : Type 0 where
  pub salt_size : Key → ℕ
  pub tag_size : Key → ℕ
  pub unpack : List ℕ → Key → Option (List ℕ)

abbrev pub min_salt_entropy : ℕ
min_salt_entropy = 16

pub record CipherEntry (Key : Type 0) : Type 0 where
  pub id : List ℕ
  pub crypto_key : Key
  pub salt_generator : ServerSaltGenerator
  pub last_client_ip : Addr

module _ {Key : Type 0} where
  -- The difference of the source is negative for a salt of fewer than 4 bytes; both fail the test.
  pub make_cipher_entry : Hashes → Shadowsocks Key → List ℕ → Key → List ℕ → CipherEntry Key
  make_cipher_entry hashes ss id key secret = record {
    id = id;
    crypto_key = key;
    salt_generator =
        if leb min_salt_entropy (ss.salt_size key - server_salt_mark_len)
        then new_server_salt_generator hashes secret
        else random;
    last_client_ip = no_addr;
  }

-- A cipher list with the store that its elements live in.
pub record CipherList (Key : Type 0) : Type 0 where
  pub store : ℕ → CipherEntry Key
  pub list : List ℕ

-- One pass over the list: the elements that pass the test go to `array[i]`, `array[i + 1]`, …
-- The result is the array and the next index.
unfoldable pub fill : (ℕ → Bool) → List ℕ → List (Option ℕ) → ℕ → List (Option ℕ) × ℕ
fill test [] array i = (array, i)
fill test (e ∷ es) array i =
    fill test es (if test e then set array i (some e) else array) (if test e then i + 1 else i)

module _ {Key : Type 0} where
  unfoldable pub matches_ip : CipherList Key → ℕ → Addr → Bool
  unfolding addr_eq
  matches_ip cl e client_ip =
      not (addr_eq client_ip no_addr) && addr_eq client_ip (cl.store e).last_client_ip

  -- `none` is a nil slot of the array.
  unfoldable pub snapshot_for_client_ip : CipherList Key → Addr → List (Option ℕ)
  snapshot_for_client_ip cl client_ip =
      let (array, i) =
        fill (λ e. matches_ip cl e client_ip) cl.list (replicate (length cl.list) none) 0 in
      (fill (λ e. not (matches_ip cl e client_ip)) cl.list array i).0

-- `list.List.MoveToFront`: an element of another list changes nothing.
unfoldable pub contains : List ℕ → ℕ → Bool
contains [] e = false
contains (x ∷ xs) e = if x == e then true else contains xs e

pub remove : List ℕ → ℕ → List ℕ
remove [] e = []
remove (x ∷ xs) e = if x == e then xs else x ∷ remove xs e

pub move_to_front : List ℕ → ℕ → List ℕ
unfolding contains remove
move_to_front l e = if contains l e then e ∷ remove l e else l

module _ {Key : Type 0} where
  -- `c.lastClientIP = clientIP`
  set_last_client_ip : (ℕ → CipherEntry Key) → ℕ → Addr → ℕ → CipherEntry Key
  set_last_client_ip store e ip x =
      if x == e then record (store x) { last_client_ip = ip } else store x

  unfoldable pub mark_used_by_client_ip : CipherList Key → ℕ → Addr → CipherList Key
  unfolding move_to_front set_last_client_ip
  mark_used_by_client_ip cl e ip = record {
    store = set_last_client_ip cl.store e ip;
    list = move_to_front cl.list e;
  }

  -- `src` holds elements that the store already has.
  unfoldable pub update : CipherList Key → List ℕ → CipherList Key
  update cl src = record cl { list = src }
