-- ===== src/Codec/Matrix/Coded.antt =====
-- A coded packet: `add_coded` on rows in reduced form.
use delp.Prelude.{
  ℕ, suc, ◌<◌, ◌≡◌, refl, sym, ap, ap₂, ◌∙◌, bit_xor, true, false, Bool-cases, inl, inr, List, [],
  ◌∷◌, get_or, length, map, some, arith, zero-xor,
}
use mathlib.Core.Path.{subst}
use delp.Error.{ok}
use delp.Config.{Field}
use delp.Gf.Simd.{scalar}
use delp.Gf.Action.{order}
use delp.Codec.Dense
use delp.Codec.Dense.{get, from_map, is_zero}
use delp.Codec.Dense.FromMap.{CoefMap, get-from_map}
use delp.Codec.Dense.Pivot.{is_zero-IsPivot}
use delp.Codec.Dense.Sum.{combination_congr, combination-zero}
use delp.Codec.Matrix.{MatrixRow, Symbols, DecodingMatrix, insert_row, row_count}
use delp.Codec.Matrix.Recover.{
  coef_map, substitute_known, solved_keys, make_room, with_rows, insert_solved, add_coded,
}
use delp.Codec.Matrix.Sound.{Session, Sound, column, substitute-Sound, normalize-Sound}
use delp.Codec.Matrix.Reduced.{
  ZeroOn, Live, Reduced, AllTrue, Recovers, ZeroOn-weaken, insert_row-Reduced, make_room-Reduced,
  length-insert_row-make_room,
}
use delp.Codec.Matrix.Eliminate.{forward_eliminate-Sound, back_substitute-BackSubstituted}
use delp.Codec.Matrix.Collect.{recover_all-AllTrue}
use delp.Codec.Matrix.Packet.{
  row_coefs, coded_byte, DistinctIds, AllBelow, Absent, Mapped, Built, coef_map-explicit,
  coef_map-vandermonde, vandermonde_coef-lt,
}
use delp.Wire.Ev.{EncodingVector, is_not_empty, has_explicit_coefs}

-- The payload is the sum of the vector's symbols, times their coefficients.
pub record IsPacket (s : Session) (ev : EncodingVector) (payload : List ℕ) : Type 0 where
  pub field : ev.field ≡ s.field
  pub ids : DistinctIds s.bound ev.source_ids
  pub lengths : length ev.source_ids ≡ length (row_coefs ev)
  pub scalars : AllBelow (order s.field) ev.coefficients
  pub size : length payload ≡ s.size
  pub bytes :
      (j : ℕ) → coded_byte s.field ev.source_ids (row_coefs ev) (column s j) ≡ get_or payload j 0

module _ (s : Session) where
  Absent-nil : (ids : List ℕ) → Absent [] ids
  Absent-nil [] = tt
  Absent-nil (id ∷ ids) = (refl, Absent-nil ids)

  -- The map of the vector's coefficients.
  packet_map :
      (ev : EncodingVector) (payload : List ℕ)
      → IsPacket s ev payload
      → (m : CoefMap) × (coef_map ev ev.source_ids ev.coefficients [] ≡ ok m)
        × Built s.field s.bound [] ev.source_ids (row_coefs ev) m
  unfolding has_explicit_coefs
  packet_map ev payload p =
      let blank : Mapped s.field s.bound [] = record {
        keys = tt;
        scalars = λ x. zero_lt s.field;
      } in
      elim (Bool-cases (has_explicit_coefs ev)) [
        | inl t ↦ rw t (
            coef_map-explicit s.field s.bound ev ev.source_ids ev.coefficients []
              (p.lengths ∙ ap length (given t)) p.ids p.scalars (Absent-nil ev.source_ids) blank)
        | inr t ↦
            let none_given : ev.coefficients ≡ [] = is_empty ev.coefficients t in
            let (m, runs, built) =
              coef_map-vandermonde s.field s.bound ev ev.source_ids [] t
                (λ id. rw (← p.field) (vandermonde_coef-lt ev.field id ev.coded_id)) p.ids
                (Absent-nil ev.source_ids) blank in
            (m, ap (λ (cs : List ℕ). coef_map ev ev.source_ids cs []) none_given ∙ runs, rw t built)
      ]
    where
      given : has_explicit_coefs ev ≡ true → row_coefs ev ≡ ev.coefficients
      given t = rw t refl

      zero_lt : (f : Field) → 0 < order f
      zero_lt Field.gf2_8 = omega arith
      zero_lt Field.gf2_4 = omega arith

      is_empty : (xs : List ℕ) → is_not_empty xs ≡ false → xs ≡ []
      is_empty [] e = refl
      is_empty (x ∷ xs) e = absurd (cc)

  packet_row-Sound :
      (ev : EncodingVector) (payload : List ℕ) (m : CoefMap)
      → IsPacket s ev payload
      → Built s.field s.bound [] ev.source_ids (row_coefs ev) m
      → Sound s (record { coefs = from_map m; payload = payload })
  packet_row-Sound ev payload m p b =
      let (ends, entry) = get-from_map s.bound m b.mapped.keys in
      record {
        ends = ends;
        scalars = λ x. rw (entry x) (b.mapped.scalars x);
        size = p.size;
        equation = λ j.
            let bytes = λ (x : ℕ). s.symbol-bytes x j in
            combination_congr s.field s.bound (column s j) bytes (get (from_map m)) _ entry
            ∙ b.sums (column s j) bytes
            ∙ ap₂ bit_xor (combination-zero s.field s.bound (column s j) bytes) (p.bytes j)
            ∙ zero-xor (get_or payload j 0);
      }

  substitute_known-Sound :
      (known : Symbols) (row : MatrixRow)
      → AllTrue s known
      → Sound s row
      → (r : MatrixRow) × (substitute_known scalar s.field known row ≡ ok r) × Sound s r
  unfolding substitute_known
  substitute_known-Sound [] row all_true h = (row, refl, h)
  substitute_known-Sound ((id, symbol) ∷ known) row (e, all_true) h =
      let (next, runs, sound, _, _) = substitute-Sound s row id h in
      let (r, goes, last) = substitute_known-Sound known next all_true sound in
      (r, rw e (rw runs goes), last)

  -- The matrix with the session's field.
  abbrev over : DecodingMatrix → DecodingMatrix
  over m = record m { field = s.field }

  insert_solved-Recovers :
      (m : DecodingMatrix) (row : MatrixRow) (pid : ℕ) (known : List ℕ)
      → Reduced s m.rows
      → Sound s row
      → Dense.pivot_id row.coefs ≡ some pid
      → get row.coefs pid ≡ 1
      → ZeroOn (get row.coefs) m.rows
      → Recovers s (over m) (insert_solved scalar (over m) row known)
  unfolding insert_solved with_rows
  insert_solved-Recovers m row pid known h sound at one on =
      let (reduced, b) = back_substitute-BackSubstituted s m.rows pid row h sound one on in
      let (kept, zero_at, zero_on) =
        make_room-Reduced s (over m) reduced pid (get row.coefs) b.reduced b.cleared
          (b.keys (get row.coefs) on) in
      let live : Live s pid row = record { sound = sound; pivot = one } in
      let rows = insert_row (make_room (over m) reduced) pid row in
      let inserted =
        insert_row-Reduced s (make_room (over m) reduced) pid row live zero_at zero_on kept in
      let (recovered, next, runs, all_true, last, done, le) =
        recover_all-AllTrue s (suc (length rows)) rows known (omega arith) inserted in
      record {
        recovered = recovered;
        next = record m { rows = next; field = s.field };
        returns = rw (at, insert_solved) (rw b.runs (rw runs refl));
        all_true = all_true;
        reduced = last;
        complete = done;
        bounded =
            unfold row_count in
            omega (arith, length-insert_row-make_room s (over m) reduced pid row, b.same);
      }

  add_coded-over :
      (m : DecodingMatrix) (ev : EncodingVector) (payload : List ℕ) (known_sources : Symbols)
      → Reduced s m.rows
      → solved_keys m.rows ≡ []
      → IsPacket s ev payload
      → AllTrue s known_sources
      → Recovers s (over m) (add_coded scalar (over m) ev payload known_sources)
  unfolding add_coded
  add_coded-over m ev payload known_sources h z p all_true =
      let unchanged : Recovers s (over m) (ok ([], over m)) = record {
        recovered = [];
        next = over m;
        returns = refl;
        all_true = tt;
        reduced = h;
        complete = z;
        bounded = omega arith;
      } in
      let (coefs, mapped, built) = packet_map ev payload p in
      let (row, substituted, sound) =
        substitute_known-Sound known_sources (record { coefs = from_map coefs; payload = payload })
          all_true (packet_row-Sound ev payload coefs p built) in
      let (reduced, eliminated, last, on, _) = forward_eliminate-Sound s m.rows row h sound in
      rw mapped (
        rw substituted (elim (Bool-cases (is_zero row.coefs)) [
          | inl t ↦ rw t unchanged
          | inr t ↦ rw t (
              rw eliminated (elim (Bool-cases (is_zero reduced.coefs)) [
                | inl u ↦ rw u unchanged
                | inr u ↦
                    let (pid, pivot) = is_zero-IsPivot reduced.coefs u in
                    let (normal, runs, true_row, at, one, keep) =
                      normalize-Sound s reduced pid last pivot in
                    rw u (
                      rw runs (
                        insert_solved-Recovers m normal pid (map (λ q. q.0) known_sources) h
                          true_row at one
                          (ZeroOn-weaken (get reduced.coefs) (get normal.coefs) m.rows keep on)))
              ]))
        ]))

  -- A true packet and true known symbols, on a matrix whose rows are in reduced form and of which
  -- none is solved: with the scalar kernels `add_coded` succeeds, every symbol that it returns is the
  -- true one of its ID, the rows that it leaves are in reduced form, none of them is solved, and
  -- there are not more rows than there were, or than `max_rows` (than one, if `max_rows` is 0).
  pub add_coded-Recovers :
      (m : DecodingMatrix) (ev : EncodingVector) (payload : List ℕ) (known_sources : Symbols)
      → m.field ≡ s.field
      → Reduced s m.rows
      → solved_keys m.rows ≡ []
      → IsPacket s ev payload
      → AllTrue s known_sources
      → Recovers s m (add_coded scalar m ev payload known_sources)
  add_coded-Recovers m ev payload known_sources e h z p all_true =
      let same : over m ≡ m = ap (λ (f : Field). record m { field = f }) (sym e) in
      subst (λ (x : DecodingMatrix). Recovers s x (add_coded scalar x ev payload known_sources))
        same (add_coded-over m ev payload known_sources h z p all_true)
