-- ===== src/Bencode/Tests.antt =====
-- The bencode reader at concrete inputs.
use jacklet.Prelude.{◌≡◌, refl, ℕ-Eq, codes, Bytes-Eq, ◌↔◌, Bytes}
use jacklet.Prelude.Decimal.{atoi, itoa}
use jacklet.Bencode.Grammar.{dictionary, Fields, Writes, encode}
use jacklet.Bencode.Canonical.{canonical_iff}
use jacklet.Bencode.Reread.{canonical_idempotent}
use jacklet.Bencode.Safe.{Reports, canonical-Reports}
use jacklet.Prelude.Sorting.{bytes_le, sort_by}
use jacklet.Bencode.{
  ok, read_bencode_string, canonical_torrent, index_byte, check_bencode_integer, length_digits,
  string_body, has_adjacent_twins, end_container, append_bencode_string, collect_entries,
  append_entries, duplicate_key, err,
}

sorts_keys : canonical_torrent (codes "d1:b01:x1:ai3eetrailing") ≡ ok (codes "d1:ai3e1:b1:xe")
unfolding canonical_torrent read_bencode_string length_digits string_body atoi index_byte
    check_bencode_integer end_container has_adjacent_twins sort_by bytes_le collect_entries
    append_entries append_bencode_string itoa
sorts_keys = refl

abbrev file : Bytes
file = codes "d1:b01:x1:ai3eetrailing"

canonical_iff_example : (canonical_torrent file ≡ ok (codes "d1:ai3e1:b1:xe")) ↔ (
    (fs : Fields) × (rest : Bytes) × Writes 0 (dictionary fs) file rest
    × (codes "d1:ai3e1:b1:xe" ≡ encode (dictionary fs)))
canonical_iff_example = canonical_iff file (codes "d1:ai3e1:b1:xe")

canonical_idempotent_example :
    canonical_torrent (codes "d1:ai3e1:b1:xe") ≡ ok (codes "d1:ai3e1:b1:xe")
canonical_idempotent_example = canonical_idempotent file (codes "d1:ai3e1:b1:xe") sorts_keys

canonical-Reports_example : Reports (canonical_torrent file)
canonical-Reports_example = canonical-Reports file

twice : canonical_torrent (codes "d1:a0:1:a0:e") ≡ err duplicate_key
unfolding canonical_torrent read_bencode_string length_digits string_body atoi index_byte
    check_bencode_integer end_container has_adjacent_twins sort_by bytes_le
twice = refl
