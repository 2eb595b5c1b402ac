-- ===== src/Http/Consumed.antt =====
-- What `parse` reports.
use my_async_lib.Base.{
  ℕ, ◌+◌, ◌≤◌, ◌≡◌, true, false, List, [], ◌∷◌, arith, length, Option, none, some, if_ind,
}
use my_async_lib.Http.{
  Bytes, Errno, hpe_ok, hpe_paused, hpe_paused_upgrade, hpe_error, Llhttp, ParserContext, Scan,
  failed, scanned, scan_block, scan_blocks, paused_at, finish, parse, parse_success,
  parse_need_more_data, parse_error, HttpRequest, ParseResult,
}

abbrev pub total_size : List Bytes → ℕ
total_size [] = 0
total_size (blk ∷ blocks) = length blk + total_size blocks

paused_at-le : (pos : Option ℕ) (blk : Bytes) → paused_at pos blk ≤ length blk
unfolding paused_at
paused_at-le none blk = omega arith
paused_at-le (some pos) blk = ground arith

module _ (l : Llhttp) where
  -- The count of a scan stays in the blocks.
  abbrev Within : ℕ → Scan l → Type 0
  Within bound (failed c) = Unit {0}
  Within bound (scanned s c total) = total ≤ bound

  scan_block-Within :
      (err : Errno) (s : l.State) (c : ParserContext) (total : ℕ) (blk : Bytes) (bound : ℕ)
      (next : l.State → ParserContext → ℕ → Scan l)
      → total + length blk ≤ bound
      → ((s' : l.State) → Within bound (next s' c (total + length blk)))
      → Within bound (scan_block l err s c total blk next)
  unfolding scan_block
  scan_block-Within hpe_ok s c total blk bound next fits rest =
      if_ind (Within bound) c.req.complete (λ _. fits) (λ _. rest s)
  scan_block-Within hpe_paused s c total blk bound next fits rest =
      omega (arith, paused_at-le (l.error_pos s) blk)
  scan_block-Within hpe_paused_upgrade s c total blk bound next fits rest =
      omega (arith, paused_at-le (l.error_pos s) blk)
  scan_block-Within hpe_error s c total blk bound next fits rest = tt

  scan_blocks-Within :
      (blocks : List Bytes) (s : l.State) (c : ParserContext) (total bound : ℕ)
      → total + total_size blocks ≤ bound
      → Within bound (scan_blocks l blocks s c total)
  unfolding scan_blocks
  scan_blocks-Within [] s c total bound fits = omega arith
  scan_blocks-Within ([] ∷ blocks) s c total bound fits =
      scan_blocks-Within blocks s c total bound (omega arith)
  scan_blocks-Within ((b ∷ bs) ∷ blocks) s c total bound fits =
      scan_block-Within (l.execute s (b ∷ bs)).1 _ _ total (b ∷ bs) bound (scan_blocks l blocks)
        (omega arith)
        (λ s'. scan_blocks-Within blocks s' _ (total + length (b ∷ bs)) bound (omega arith))

  -- `parse` reports success exactly with a complete request, and never more bytes consumed than the
  -- buffer holds, so that `pop_front` stays in it.
  unfoldable pub Reported : List Bytes → HttpRequest × ParseResult → Type 0
  Reported blocks (req, result) =
      (result.consumed_bytes ≤ total_size blocks)
      × (result.status ≡ parse_success → req.complete ≡ true)
      × (result.status ≡ parse_need_more_data → req.complete ≡ false)
      × (result.status ≡ parse_error → result.consumed_bytes ≡ 0)

  finish-Reported :
      (blocks : List Bytes) (r : Scan l)
      → Within (total_size blocks) r
      → Reported blocks (finish l r)
  unfolding finish Reported
  finish-Reported blocks (failed c) h = ground arith
  finish-Reported blocks (scanned s c total) h = ground arith

  -- For any parser `llhttp`, `parse` never reports more bytes consumed than the buffer holds; it
  -- reports success only with a complete request, more data needed only with an incomplete one, and
  -- an error with no byte consumed.
  pub parse-Reported : (blocks : List Bytes) → Reported blocks (parse l blocks)
  unfolding parse
  parse-Reported blocks = finish-Reported blocks _ (scan_blocks-Within blocks _ _ 0 _ (omega arith))
