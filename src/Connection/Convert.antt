-- ===== src/Connection/Convert.antt =====
-- `processx__connection_to_utf8`: raw bytes are converted and moved to the UTF-8 buffer.
use processx.Base.{
  ℕ, zero, suc, ◌-◌, Bool, ◌||◌, Option, none, some, List, [], ◌++◌, Result, ok, throw, ltb, ◌==◌,
  if◌then◌else◌, length, drop,
}
use processx.Connection.Types.{Fault, no_fuel, eilseq, einval, Platform, Io, M}

-- The text of a null `encoding`: iconv takes it for the native encoding.
abbrev pub encoding_or_empty : Option (List ℕ) → List ℕ
encoding_or_empty none = []
encoding_or_empty (some e) = e

-- What the loop has: the input left (`inbuf`, `inbytesleft`) and the output so far (`outdone`).
pub record Progress : Type 0 where
  pub left : List ℕ
  pub out : List ℕ

module _ (P : Platform) where
  -- The loop over `Riconv`, with the room that is left; `none` means that the fuel ran out.
  -- At an invalid byte it drops this byte and goes on with what follows.
  unfoldable pub convert_loop :
      ℕ → ℕ → Bool → List ℕ → List ℕ → ℕ → P.World → Option (Progress × P.World)
  convert_loop zero ctx raw_eof input out room w = none
  convert_loop (suc fuel) ctx raw_eof input out room w =
      let (c, w') = P.riconv ctx input room w in
      let left = drop c.consumed input in
      let out' = out ++ c.output in
      let again = convert_loop fuel ctx raw_eof (drop 1 left) out' (room - length c.output) w' in
      elim c.status [
        | eilseq ↦
            if ltb 0 (length (drop 1 left))
            then again
            else some (record { left = drop 1 left; out = out' }, w')
        | einval ↦
            if raw_eof
            then some (record { left = []; out = out' }, w')
            else some (record { left = left; out = out' }, w')
        | _ ↦ some (record { left = left; out = out' }, w')
      ]

  -- `Riconv_open`, if there is no converter yet.
  unfoldable pub open_converter : Option ℕ → Io P → ℕ × Io P
  open_converter (some ctx) io = (ctx, io)
  open_converter none (c, w) =
      let (ctx, w') = P.riconv_open (encoding_or_empty c.encoding) w in
      (ctx, (record c { iconv_ctx = some ctx }, w'))

  -- The end of the function: the input that was used leaves the raw buffer.
  unfoldable pub store_progress : Option (Progress × P.World) → Io P → Result Fault ℕ × Io P
  store_progress none io = (throw no_fuel, io)
  store_progress (some (p, w')) (c, w) =
      if ltb 0 (length p.out) || ltb 0 (length c.buffer - length p.left)
      then (ok (length p.out), (record c { buffer = p.left; utf8 = c.utf8 ++ p.out }, w'))
      else (ok (length p.out), (c, w'))

  -- The conversion with the context `ctx`.
  unfoldable pub convert_with : ℕ → M P ℕ
  unfolding store_progress
  convert_with ctx (c, w) =
      let room = c.utf8_allocated - length c.utf8 in
      let converted = convert_loop (length c.buffer) ctx c.is_eof_raw c.buffer [] room w in
      if (length c.buffer == 0) || (room == 0)
      then (ok 0, (c, w))
      else store_progress converted (c, w)

  unfoldable pub to_utf8 : M P ℕ
  unfolding open_converter convert_with
  to_utf8 (c, w) = let (ctx, io') = open_converter c.iconv_ctx (c, w) in convert_with ctx io'
