-- ===== src/AntiEntropy.antt =====
-- suprime/antientropy.py: stores compared by a fingerprint for each bucket of keys, and the entries
-- of the buckets that differ exchanged. SHA-256 and the
-- text of a float are parameters. What
-- the node is asked to send is a list of requests, in order; a request to a node that the table does
-- not know is dropped by the node.
pub mod Texts
pub mod Buckets
pub mod Lines
pub mod Format
pub mod Exchange
pub mod Converge
use Prim.Native.String.{String, ◌++◌ as ◌<>◌}
use suprime.Base.{
  ℕ, ◌+◌, ◌%◌, Bool, true, false, ◌&&◌, not, Option, none, some, List, [], ◌∷◌, ◌++◌, if◌then◌else◌,
}
use suprime.Base.Key.{Eq, Order, ◌==◌, nat_eq, string_eq, string_order}
use suprime.Base.Result.{Result, ok, raise}
use suprime.Base.Lists.{length}
use suprime.Base.Sets.{member, add}
use suprime.Base.Sort.{sorted}
use suprime.Base.Dict.{Dict, get, put, has}
use suprime.Store.{Store}
use suprime.Store.Wire
use suprime.Store.Wire.{Sent}

-- The number of a key's hash, the text of a timestamp (`str` of a float), and the fingerprint of a
-- text: SHA-256, and Python's formatting.
pub record Hashing (F : Type 0) : Type 0 where
  pub key_hash : String → ℕ
  pub text_of : ℕ → String
  pub fingerprint : String → F

pub data Message (K V F : Type 0) : Type 0 where
  ae_digest : Dict ℕ F → Message K V F
  ae_pull : List ℕ → Message K V F
  ae_push : Dict K (Sent K V) → Message K V F

pub record AntiEntropy (K V C F : Type 0) : Type 0 where
  pub store : Store K V C
  pub n_buckets : ℕ
  pub entries_sent : ℕ
  pub entries_received : ℕ
  pub requests : List (K × Message K V F)

abbrev pub or_empty : {A : Type 0} → Option (List A) → List A
or_empty none = []
or_empty (some xs) = xs

-- `entry.get('deleted', False)`
abbrev pub is_marked : Option Bool → Bool
is_marked none = false
is_marked (some b) = b

abbrev pub origin_text : Option String → String
origin_text none = ""
origin_text (some origin) = origin

abbrev pub mark_text : Bool → String
mark_text true = "True"
mark_text false = "False"

-- The lines after the first, each with a newline before it.
unfoldable pub tail_lines : List String → String
tail_lines [] = ""
tail_lines (line ∷ lines) = "\n" <> (line <> tail_lines lines)

-- `"\n".join(lines)`
unfoldable pub join_lines : List String → String
unfolding tail_lines
join_lines [] = ""
join_lines (line ∷ lines) = line <> tail_lines lines

module _ {F : Type 0} (h : Hashing F) where
  -- `entry['ts']`; the digest of a store has all three fields.
  abbrev pub ts_text : Option ℕ → String
  ts_text none = ""
  ts_text (some ts) = h.text_of ts

  unfoldable pub bucket_of : String → ℕ → ℕ
  bucket_of key n = h.key_hash key % n

module _ {V F : Type 0} (h : Hashing F) where
  -- The key, the timestamp, the origin and the mark, with bars between; nothing is escaped.
  unfoldable pub line_of : String → Sent String V → String
  line_of key sent =
      key
      <> ("|"
          <> (ts_text h sent.ts
              <> ("|" <> (origin_text sent.origin <> ("|" <> mark_text (is_marked sent.deleted))))))

  -- The lines of each bucket, in the order of the keys.
  unfoldable pub collect :
      Dict String (Sent String V) → ℕ → Dict ℕ (List String) → Dict ℕ (List String)
  unfolding bucket_of line_of get put
  collect [] n buckets = buckets
  collect ((key, sent) ∷ digest) n buckets =
      let b = bucket_of h key n in
      collect digest n (put b (or_empty (get b buckets) ++ line_of key sent ∷ []) buckets)

module _ {F : Type 0} (h : Hashing F) where
  unfoldable pub fingerprints : Dict ℕ (List String) → Dict ℕ F
  unfolding sorted join_lines
  fingerprints [] = []
  fingerprints ((b, items) ∷ buckets) =
      (b, h.fingerprint (join_lines (sorted items))) ∷ fingerprints buckets

module _ {V F : Type 0} (h : Hashing F) where
  unfoldable pub bucket_hashes : Dict String (Sent String V) → ℕ → Dict ℕ F
  unfolding collect fingerprints
  bucket_hashes digest n = fingerprints h (collect h digest n [])

module _ {F : Type 0} ⦃f : Eq F⦄ where
  -- `local.get(b) != remote.get(b)`
  abbrev pub differ : Option F → Option F → Bool
  differ none none = false
  differ none (some y) = true
  differ (some x) none = true
  differ (some x) (some y) = not (x == y)

  unfoldable pub mine_differ : Dict ℕ F → Dict ℕ F → Dict ℕ F → List ℕ → List ℕ
  unfolding get add
  mine_differ [] mine remote found = found
  mine_differ ((b, x) ∷ keys) mine remote found =
      mine_differ keys mine remote
        (if differ (get b mine) (get b remote) then add b found else found)

  unfoldable pub only_remote : Dict ℕ F → Dict ℕ F → List ℕ → List ℕ
  unfolding has add
  only_remote [] mine found = found
  only_remote ((b, y) ∷ remote) mine found =
      only_remote remote mine (if has b mine then found else add b found)

  unfoldable pub diff_buckets : Dict ℕ F → Dict ℕ F → List ℕ
  unfolding mine_differ only_remote
  diff_buckets mine remote = only_remote remote mine (mine_differ mine mine remote [])

module _ {V F : Type 0} (h : Hashing F) where
  unfoldable pub entries_for_buckets :
      Dict String (Sent String V) → List ℕ → ℕ → Dict String (Sent String V)
  unfolding bucket_of member
  entries_for_buckets [] buckets n = []
  entries_for_buckets ((key, sent) ∷ digest) buckets n =
      let rest = entries_for_buckets digest buckets n in
      if member (bucket_of h key n) buckets then (key, sent) ∷ rest else rest

abbrev pub no_keys : List ℕ → Bool
no_keys [] = true
no_keys (b ∷ bs) = false

module _ {V C F : Type 0} ⦃f : Eq F⦄ (h : Hashing F) where
  -- `peer` is the random choice among the live peers, if there is one.
  unfoldable pub tick : Option String → AntiEntropy String V C F → AntiEntropy String V C F
  unfolding Wire.digest bucket_hashes
  tick none s = s
  tick (some peer) s = record s {
    requests =
        s.requests ++ (peer, ae_digest (bucket_hashes h (Wire.digest s.store) s.n_buckets)) ∷ [];
  }

  unfoldable pub on_digest : Dict ℕ F → String → AntiEntropy String V C F → AntiEntropy String V C F
  unfolding Wire.digest bucket_hashes diff_buckets entries_for_buckets
  on_digest remote src s =
      let digest = Wire.digest s.store in
      let mismatched = diff_buckets (bucket_hashes h digest s.n_buckets) remote in
      let entries = entries_for_buckets h digest mismatched s.n_buckets in
      if no_keys mismatched then s else record s {
        entries_sent = s.entries_sent + length entries;
        requests = s.requests ++ (src, ae_push entries) ∷ (src, ae_pull mismatched) ∷ [];
      }

  unfoldable pub on_pull : List ℕ → String → AntiEntropy String V C F → AntiEntropy String V C F
  unfolding Wire.digest entries_for_buckets
  on_pull buckets src s =
      let entries = entries_for_buckets h (Wire.digest s.store) buckets s.n_buckets in
      record s {
        entries_sent = s.entries_sent + length entries;
        requests = s.requests ++ (src, ae_push entries) ∷ [];
      }

module _ {K V C F : Type 0} ⦃e : Eq K⦄ ⦃o : Order K⦄ where
  unfoldable pub on_push :
      Dict K (Sent K V) → AntiEntropy K V C F → AntiEntropy K V C F × Result Bool
  unfolding Wire.apply_digest
  on_push entries s =
      let (store, answer) = Wire.apply_digest entries s.store in
      (record s { store = store; entries_received = s.entries_received + length entries }, answer)

module _ {V C F : Type 0} ⦃f : Eq F⦄ (h : Hashing F) where
  -- The handlers by message type; an exception of a push is left to the node.
  unfoldable pub handle :
      String → Message String V F → AntiEntropy String V C F → AntiEntropy String V C F
  unfolding on_digest on_pull on_push
  handle src (ae_digest remote) s = on_digest h remote src s
  handle src (ae_pull buckets) s = on_pull h buckets src s
  handle src (ae_push entries) s = (on_push entries s).0
