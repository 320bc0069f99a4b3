-- ===== src/Tcp/Search.antt =====
-- Which access key `findAccessKey` of service/tcp.go finds.
use outline_ss_server.Prelude.{
  ℕ, ◌≤◌, ◌≡◌, refl, ap, ◌∙◌, Bool, true, false, not, Option, none, some, List, [], ◌∷◌, ◌++◌, map,
  leb, if◌then◌else◌, arith, length, take, drop, All, length-take,
}
use outline_ss_server.Net.GoError.{plain}
use outline_ss_server.Cipher.{
  Addr, Shadowsocks, CipherEntry, CipherList, matches_ip, snapshot_for_client_ip,
  mark_used_by_client_ip,
}
use outline_ss_server.Cipher.Snapshot.{select, snapshot-eq-select}
use outline_ss_server.Tcp.State.{
  lift, bind-done, count_read, World, Outcome, done, read_full, bytes,
}
use outline_ss_server.Tcp.Auth.{
  KeySearch, missed, hit, header_size, find_entry, use_entry, search_bytes, find_access_key,
}

-- The first element that passes a test.
abbrev pub first_match : (ℕ → Bool) → List ℕ → Option ℕ
first_match test [] = none
first_match test (e ∷ es) = if test e then some e else first_match test es

module _ {Key : Type 0} (ss : Shadowsocks Key) where
  -- The header at the start of the bytes authenticates under the key of an element.
  abbrev pub opens : (ℕ → CipherEntry Key) → List ℕ → ℕ → Bool
  opens store first e =
      elim (ss.unpack (take (header_size ss (store e).crypto_key) first) (store e).crypto_key) [
        | none ↦ false
        | some _ ↦ true
      ]

  pub find_entry_first :
      (store : ℕ → CipherEntry Key) (first : List ℕ) (es : List ℕ)
      → All (λ e. header_size ss (store e).crypto_key ≤ length first) es
      → find_entry ss store first (map some es) ≡ done (first_match (opens store first) es)
  unfolding find_entry
  find_entry_first store first [] h = refl
  find_entry_first store first (e ∷ es) h = ground (arith, find_entry_first store first es h.1)

  -- The elements in the order in which they are tried.
  abbrev pub search_order : CipherList Key → Addr → List ℕ
  search_order cl ip =
      select (λ e. matches_ip cl e ip) cl.list ++ select (λ e. not (matches_ip cl e ip)) cl.list

  abbrev pub search_result : CipherList Key → List ℕ → Option ℕ → KeySearch
  search_result cl first none = missed (plain "could not find valid TCP cipher")
  search_result cl first (some e) = hit e first (take (ss.salt_size (cl.store e).crypto_key) first)

  -- The world after the 50 bytes are read, and after a search with a result.
  abbrev pub after_read : World Key → World Key
  after_read w = record w {
    conn = record (w.conn) { input = drop 50 w.conn.input };
    metrics = count_read w.metrics 50;
  }

  abbrev pub after_search : World Key → Addr → Option ℕ → World Key
  after_search w ip none = after_read w
  after_search w ip (some e) = record (after_read w) {
    ciphers = mark_used_by_client_ip w.ciphers e ip;
  }

  length-first : (w : World Key) → 50 ≤ length w.conn.input → length (take 50 w.conn.input) ≡ 50
  length-first w l = omega (arith, length-take 50 w.conn.input)

  read_full_enough :
      (w : World Key)
      → 50 ≤ length w.conn.input
      → read_full 50 w ≡ (done (bytes (take 50 w.conn.input)), after_read w)
  unfolding read_full
  read_full_enough w l =
      let b : leb 50 (length w.conn.input) ≡ true = ground arith in rw (b, read_full) refl

  use_entry_lem :
      (ip : Addr) (w : World Key) (o : Option ℕ)
      → use_entry ss ip w.ciphers.store (take 50 w.conn.input) o (after_read w)
        ≡ (done (search_result w.ciphers (take 50 w.conn.input) o), after_search w ip o)
  unfolding use_entry
  use_entry_lem ip w none = refl
  use_entry_lem ip w (some e) = refl

  pub find_access_key_steps :
      (ip : Addr) (w : World Key) (o : Option ℕ)
      → 50 ≤ length w.conn.input
      → find_entry ss w.ciphers.store (take 50 w.conn.input) (snapshot_for_client_ip w.ciphers ip)
        ≡ done o
      → find_access_key ss ip w
        ≡ (done (search_result w.ciphers (take 50 w.conn.input) o), after_search w ip o)
  unfolding find_access_key
  find_access_key_steps ip w o l e =
      bind-done (read_full 50) (search_bytes ss ip (snapshot_for_client_ip w.ciphers ip)) w
        (read_full_enough w l)
      ∙ bind-done
          (lift (
            find_entry ss w.ciphers.store (take 50 w.conn.input)
              (snapshot_for_client_ip w.ciphers ip)))
          (use_entry ss ip w.ciphers.store (take 50 w.conn.input)) (after_read w)
          (ap (λ (r : Outcome (Option ℕ)). (r, after_read w)) e)
      ∙ use_entry_lem ip w o

  -- The search on a connection with at least 50 bytes, where the header of every key fits into 50
  -- bytes, does not panic: it finds the first key that authenticates the 50 bytes, keys last used
  -- from the client's IP before the others, and no key only if none authenticates them.
  pub find_access_key_first :
      (ip : Addr) (w : World Key)
      → 50 ≤ length w.conn.input
      → All (λ e. header_size ss (w.ciphers.store e).crypto_key ≤ 50) (search_order w.ciphers ip)
      → (find_access_key ss ip w).0
        ≡ done (
            search_result w.ciphers (take 50 w.conn.input) (
              first_match
                (opens w.ciphers.store (take 50 w.conn.input))
                (search_order w.ciphers ip)))
  find_access_key_first ip w l h =
      ap (λ (p : Outcome KeySearch × World Key). p.0)
        (find_access_key_steps ip w _ l (
          rw (snapshot-eq-select w.ciphers ip) (
            find_entry_first w.ciphers.store (take 50 w.conn.input) (search_order w.ciphers ip)
              (rw (length-first w l) h))))
