-- ===== src/Ledger/History/Cursor.antt =====
-- The cursors of `listTransactions` (packages/api/src/modules/ledger/ledger.service.ts).
use Prim.Native.String.{◌++◌}
use text.Mathlib.TextLemmas.{nil-append, cons-append}
use mini_rewards_integration.Prelude.{
  ℕ, ◌≤◌, String, Bool, false, ◌≡◌, ◌∙◌, refl, ap, some, ◌==◌, ◌||◌, arith,
}
use mini_rewards_integration.Ledger.History.{
  Position, Codec, encode_cursor, is_bar, first_part, behind_bar, decode_cursor,
}

unfoldable pub has_bar : String → Bool
has_bar String.[] = false
has_bar (String.◌∷◌ c s) = is_bar c || has_bar s

bar-append : (t : String) → "|" ++ t ≡ String.◌∷◌ "|" t
bar-append t = cons-append "|" "" t ∙ ap (String.◌∷◌ "|") (nil-append t)

first_part-append : (s t : String) → has_bar s ≡ false → first_part (s ++ ("|" ++ t)) ≡ s
unfolding has_bar first_part
first_part-append String.[] t h = rw (nil-append ("|" ++ t), bar-append t) refl
first_part-append (String.◌∷◌ c s) t h =
    rw (cons-append c s ("|" ++ t)) (ground (arith, first_part-append s t))

behind_bar-append : (s t : String) → has_bar s ≡ false → behind_bar (s ++ ("|" ++ t)) ≡ some t
unfolding has_bar behind_bar
behind_bar-append String.[] t h = rw (nil-append ("|" ++ t), bar-append t) refl
behind_bar-append (String.◌∷◌ c s) t h =
    rw (cons-append c s ("|" ++ t)) (ground (arith, behind_bar-append s t))

first_part_whole : (s : String) → has_bar s ≡ false → first_part s ≡ s
unfolding has_bar first_part
first_part_whole String.[] h = refl
first_part_whole (String.◌∷◌ c s) h = ground (arith, first_part_whole s)

-- What the code relies on in Node: base64url comes back, and a date's ISO text is not empty, has no bar
-- and gives the date again.
pub record IsCodec (codec : Codec) : Type 0 where
  pub comes_back : (s : String) → codec.from_base64url (codec.to_base64url s) ≡ s
  pub iso_plain : (t : ℕ) → t ≤ codec.last_instant → has_bar (codec.to_iso t) ≡ false
  pub iso_filled : (t : ℕ) → t ≤ codec.last_instant → (codec.to_iso t == "") ≡ false
  pub iso_date : (t : ℕ) → t ≤ codec.last_instant → codec.parse_date (codec.to_iso t) ≡ some t

-- A position that a cursor can carry.
pub record IsPlain (codec : Codec) (p : Position) : Type 0 where
  pub no_bar : has_bar p.id ≡ false
  pub filled : (p.id == "") ≡ false
  pub dated : p.created_at ≤ codec.last_instant

-- A cursor decodes to the position that it encodes, for an id that is not empty and has no bar in it
-- and a date within the range of `Date`.
-- (Of Node: base64url comes back, and an ISO date is a text without a bar that gives the date again.)
pub decode_cursor-encode_cursor :
    (codec : Codec) (p : Position)
    → IsCodec codec
    → IsPlain codec p
    → decode_cursor codec (encode_cursor codec p) ≡ some p
unfolding decode_cursor encode_cursor
decode_cursor-encode_cursor codec p c plain =
    let text = codec.to_iso p.created_at ++ ("|" ++ p.id) in
    rw (c.comes_back text) (
      rw
        (
          first_part-append (codec.to_iso p.created_at) p.id (c.iso_plain p.created_at plain.dated),
          behind_bar-append (codec.to_iso p.created_at) p.id (c.iso_plain p.created_at plain.dated),
        )
        (rw
          (
            c.iso_filled p.created_at plain.dated,
            c.iso_date p.created_at plain.dated,
            first_part_whole p.id plain.no_bar,
          )
          (rw plain.filled)))
