-- ===== src/Euicc/Session/Delivery.antt =====
-- A session with a card that keeps to the protocol hands over a whole request and gets a whole answer.
use mu5250_open_ui.Base.{
  ℕ, zero, suc, ◌+◌, ◌%◌, ◌≤◌, ◌<◌, ◌≡◌, ◌≢◌, refl, sym, ap, ◌∙◌, List, [], ◌∷◌, ◌++◌, length,
  arith, All, bit_and, Bool, true, false, if◌then◌else◌, append_assoc, append-nil, length-append,
}
use mathlib.Core.Path.{subst}
use mu5250_open_ui.Base.Results.{Result, ok}
use mu5250_open_ui.Base.Masks.{bit_and-0xff}
use mu5250_open_ui.Euicc.Session.{
  Apdu, Error, Outcome, done, collect, send_blocks, command, get_response, store_data, is_last,
  chunks,
}
use mu5250_open_ui.Euicc.Session.Blocks.{
  concat, IsBlock, concat-chunks, chunks-IsBlock, split_status-append, iso_class, class-iso_class,
}

-- The commands of the protocol: one block of a request, with the last one marked, and the fetching of
-- more of the answer.
abbrev pub block_command : ℕ → ℕ → ℕ → List ℕ → List ℕ
block_command channel p1 seq block =
    iso_class channel ∷ (0xe2 ∷ (p1 ∷ (seq % 256 ∷ (length block ∷ block))))

abbrev pub fetch_command : ℕ → ℕ → List ℕ
fetch_command channel le = iso_class channel ∷ (0xc0 ∷ (0x00 ∷ (0x00 ∷ (le ∷ []))))

-- A card that keeps to the protocol, seen through the request that it has collected, the number of its
-- blocks, the part of the answer that it still holds, and the length that it has announced.
module _ {W : Type 0} (io : Apdu W) (channel : ℕ) (answer : List ℕ → List ℕ) where
  pub record View : Type 0 where
    pub got : W → List ℕ
    pub blocks : W → ℕ
    pub rest : W → List ℕ
    pub announced : W → ℕ

  -- A response gives the whole of `bytes`, or a first part of at least `least` bytes and announces more.
  pub data Delivers (v : View) (least : ℕ) (bytes : List ℕ) (reply : Result Error (List ℕ) × W)
      : Type 0 where
    whole : reply.0 ≡ ok (bytes ++ (0x90 ∷ (0x00 ∷ []))) → Delivers v least bytes reply
    part :
        (chunk : List ℕ) (le : ℕ)
        → reply.0 ≡ ok (chunk ++ (0x61 ∷ (le ∷ [])))
        → least ≤ length chunk
        → bytes ≡ chunk ++ v.rest reply.1
        → v.announced reply.1 ≡ le
        → Delivers v least bytes reply

  pub record IsCard (v : View) : Type 0 where
    -- A block that is not the last is acknowledged and kept.
    pub keeps :
        (seq : ℕ) (block : List ℕ) (w : W)
        → v.blocks w ≡ seq
        → length block ≤ 120
        → let (r, w') = io.transmit (block_command channel 0x11 seq block) w in
          (r ≡ ok (0x90 ∷ (0x00 ∷ []))) × (v.got w' ≡ v.got w ++ block) × (v.blocks w' ≡ suc seq)
    -- The last block is answered.
    pub answers :
        (seq : ℕ) (block : List ℕ) (w : W)
        → v.blocks w ≡ seq
        → length block ≤ 120
        → Delivers v 0
            (answer (v.got w ++ block))
            (io.transmit (block_command channel 0x91 seq block) w)
    -- The announced length is fetched, and each fetch gives a byte at least.
    pub fetches :
        (w : W) → Delivers v 1 (v.rest w) (io.transmit (fetch_command channel (v.announced w)) w)

module _ {W : Type 0} (io : Apdu W) (channel : ℕ) (answer : List ℕ → List ℕ)
    (v : View io channel answer) (card : IsCard io channel answer v) (in_range : channel < 20) where
  -- What a call ends with: the bytes, in some world.
  abbrev pub Gives : Outcome W (List ℕ) → List ℕ → Type 0
  Gives o bytes = (w : W) × (o ≡ done bytes w)

  collect_whole :
      (fuel : ℕ) (apdu out bytes : List ℕ) (w : W)
      → (io.transmit apdu w).0 ≡ ok (bytes ++ (0x90 ∷ (0x00 ∷ [])))
      → collect io channel (suc fuel) apdu out w ≡ done (out ++ bytes) (io.transmit apdu w).1
  unfolding collect
  collect_whole fuel apdu out bytes w e = ground (arith, split_status-append bytes 0x90 0x00)

  collect_part :
      (fuel : ℕ) (apdu out chunk : List ℕ) (le : ℕ) (w : W)
      → (io.transmit apdu w).0 ≡ ok (chunk ++ (0x61 ∷ (le ∷ [])))
      → collect io channel (suc fuel) apdu out w
        ≡ collect io channel fuel (get_response channel le) (out ++ chunk) (io.transmit apdu w).1
  unfolding collect
  collect_part fuel apdu out chunk le w e = ground (arith, split_status-append chunk 0x61 le)

  deliver :
      (fuel least : ℕ) (apdu bytes out : List ℕ) (w : W)
      → Delivers io channel answer v least bytes (io.transmit apdu w)
      → ((out' : List ℕ) (w' : W)
          → least + length (v.rest w') ≤ length bytes
          → Gives
              (collect io channel fuel (get_response channel (v.announced w')) out' w')
              (out' ++ v.rest w'))
      → Gives (collect io channel (suc fuel) apdu out w) (out ++ bytes)
  deliver fuel least apdu bytes out w (whole e) next =
      ((io.transmit apdu w).1, collect_whole fuel apdu out bytes w e)
  deliver fuel least apdu bytes out w (part chunk le e many split ann) next =
      let w' = (io.transmit apdu w).1 in
      let (w'', q) = next (out ++ chunk) w' (
        omega
          (arith, many, ap length split, length-append chunk (v.rest (io.transmit apdu w).1))) in
      (
        w'',
        collect_part fuel apdu out chunk le w e
            ∙ ap (λ l. collect io channel fuel (get_response channel l) (out ++ chunk) w') (sym ann)
            ∙ q
            ∙ ap (λ b. done b w'')
                (append_assoc out chunk (v.rest w') ∙ ap (λ b. out ++ b) (sym split)),
      )

  get_response_fetch : (le : ℕ) → get_response channel le ≡ fetch_command channel le
  get_response_fetch le =
      ap (λ c. c ∷ (0xc0 ∷ (0x00 ∷ (0x00 ∷ (le ∷ []))))) (class-iso_class channel in_range)

  collect_fetch :
      (fuel : ℕ) (out : List ℕ) (w : W)
      → length (v.rest w) < fuel
      → Gives
          (collect io channel fuel (get_response channel (v.announced w)) out w)
          (out ++ v.rest w)
  collect_fetch zero out w h = absurd (omega arith)
  collect_fetch (suc fuel) out w h =
      subst (λ apdu. Gives (collect io channel (suc fuel) apdu out w) (out ++ v.rest w))
        (sym (get_response_fetch (v.announced w)))
        (deliver fuel 1 (fetch_command channel (v.announced w)) (v.rest w) out w (card.fetches w)
          (λ out' w' less. collect_fetch fuel out' w' (omega arith)))

  store_data_block :
      (last : Bool) (seq : ℕ) (block : List ℕ)
      → length block ≤ 120
      → store_data channel last seq block
        ≡ block_command channel (if last then 0x91 else 0x11) seq block
  store_data_block last seq block h =
      let short : length block % 256 ≡ length block = omega arith in
      ap
        (λ c.
          c
          ∷ (0xe2
              ∷ ((if last then 0x91 else 0x11)
                  ∷ (bit_and seq 0xff ∷ (length block % 256 ∷ block)))))
        (class-iso_class channel in_range)
      ∙ ap
          (λ n.
            iso_class channel
            ∷ (0xe2 ∷ ((if last then 0x91 else 0x11) ∷ (n ∷ (length block % 256 ∷ block)))))
          (bit_and-0xff seq)
      ∙ ap
          (λ n.
            iso_class channel
            ∷ (0xe2 ∷ ((if last then 0x91 else 0x11) ∷ (seq % 256 ∷ (n ∷ block)))))
          short

  -- The last block, and the answer after it.
  collect_last :
      (fuel seq : ℕ) (block : List ℕ) (w : W)
      → length block ≤ 120
      → v.blocks w ≡ seq
      → length (answer (v.got w ++ block)) + 2 ≤ fuel
      → Gives
          (collect io channel fuel (store_data channel true seq block) [] w)
          (answer (v.got w ++ block))
  collect_last zero seq block w small at h = absurd (omega arith)
  collect_last (suc fuel) seq block w small at h =
      subst (λ apdu. Gives (collect io channel (suc fuel) apdu [] w) (answer (v.got w ++ block)))
        (sym (store_data_block true seq block small))
        (deliver fuel 0 (block_command channel 0x91 seq block) (answer (v.got w ++ block)) [] w
          (card.answers seq block w at small)
          (λ out' w' less. collect_fetch fuel out' w' (omega arith)))

  -- A block that is not the last leaves the answer empty and is added to the request of the card.
  collect_block :
      (fuel seq : ℕ) (block : List ℕ) (w : W)
      → length block ≤ 120
      → v.blocks w ≡ seq
      → (w' : W) × (collect io channel (suc fuel) (store_data channel false seq block) [] w
          ≡ done [] w')
        × (v.got w' ≡ v.got w ++ block)
        × (v.blocks w' ≡ suc seq)
  collect_block fuel seq block w small at =
      let sent = block_command channel 0x11 seq block in
      let (e, got, count) = card.keeps seq block w at small in
      (
        (io.transmit sent w).1,
        ap (λ apdu. collect io channel (suc fuel) apdu [] w)
              (store_data_block false seq block small)
            ∙ collect_whole fuel sent [] [] w e,
        got,
        count,
      )

  send_blocks_step :
      (fuel seq : ℕ) (block out out' : List ℕ) (blocks : List (List ℕ)) (w w' : W)
      → collect io channel fuel (store_data channel (is_last blocks) seq block) out w ≡ done out' w'
      → send_blocks io channel fuel seq (block ∷ blocks) out w
        ≡ send_blocks io channel fuel (suc seq) blocks out' w'
  unfolding send_blocks
  send_blocks_step fuel seq block out out' blocks w w' e = rw (send_blocks, e)

  send_blocks_nil :
      (fuel seq : ℕ) (out : List ℕ) (w : W) → send_blocks io channel fuel seq [] out w ≡ done out w
  unfolding send_blocks
  send_blocks_nil fuel seq out w = refl

  send_blocks_given :
      (fuel seq : ℕ) (block : List ℕ) (blocks : List (List ℕ)) (w : W)
      → All IsBlock (block ∷ blocks)
      → v.blocks w ≡ seq
      → length (answer (v.got w ++ concat (block ∷ blocks))) + 2 ≤ fuel
      → Gives
          (send_blocks io channel fuel seq (block ∷ blocks) [] w)
          (answer (v.got w ++ concat (block ∷ blocks)))
  unfolding concat
  send_blocks_given fuel seq block [] w good at h =
      let one = append-nil block in
      let (w', q) =
        collect_last fuel seq block w good.0.1 at
          (omega (arith, ap (λ b. length (answer (v.got w ++ b))) one)) in
      (
        w',
        send_blocks_step fuel seq block [] (answer (v.got w ++ block)) [] w w' q
            ∙ send_blocks_nil fuel (suc seq) (answer (v.got w ++ block)) w'
            ∙ ap (λ b. done (answer (v.got w ++ b)) w') (sym one),
      )
  send_blocks_given zero seq block (next ∷ blocks) w good at h = absurd (omega arith)
  send_blocks_given (suc fuel) seq block (next ∷ blocks) w good at h =
      let (w', q, got, count) = collect_block fuel seq block w good.0.1 at in
      let joined =
        ap (λ b. b ++ concat (next ∷ blocks)) got
        ∙ append_assoc (v.got w) block (concat (next ∷ blocks)) in
      let (w'', r) =
        send_blocks_given (suc fuel) (suc seq) next blocks w' good.1 count
          (omega (arith, ap (λ b. length (answer b)) joined)) in
      (
        w'',
        send_blocks_step (suc fuel) seq block [] [] (next ∷ blocks) w w' q
            ∙ r
            ∙ ap (λ b. done (answer b) w'') joined,
      )

  send_blocks_whole :
      (fuel : ℕ) (der : List ℕ) (blocks : List (List ℕ)) (w : W)
      → der ≢ []
      → concat blocks ≡ der
      → All IsBlock blocks
      → v.got w ≡ []
      → v.blocks w ≡ 0
      → length (answer der) + 2 ≤ fuel
      → Gives (send_blocks io channel fuel 0 blocks [] w) (answer der)
  unfolding concat
  send_blocks_whole fuel der [] w some_byte e good empty first h = absurd (some_byte (sym e))
  send_blocks_whole fuel der (block ∷ blocks) w some_byte e good empty first h =
      let all = ap (λ g. g ++ concat (block ∷ blocks)) empty ∙ e in
      subst (λ b. Gives (send_blocks io channel fuel 0 (block ∷ blocks) [] w) (answer b)) all
        (send_blocks_given fuel 0 block blocks w good first
          (omega (arith, ap (λ b. length (answer b)) all)))

  -- For a card that keeps to the protocol, on a channel below 20, a command that is not empty gives the
  -- card's answer to the whole of the command's bytes, however they were cut into blocks and however
  -- the card cut its answer. The card starts with no block; the fuel is at least two more than the answer's length.
  pub command-answer :
      (fuel : ℕ) (der : List ℕ) (w : W)
      → der ≢ []
      → v.got w ≡ []
      → v.blocks w ≡ 0
      → length (answer der) + 2 ≤ fuel
      → (w' : W) × (command io channel fuel der w ≡ done (answer der) w')
  unfolding command
  command-answer fuel der w some_byte empty first h =
      send_blocks_whole fuel der (chunks der) w some_byte (concat-chunks der) (chunks-IsBlock der)
        empty first h
