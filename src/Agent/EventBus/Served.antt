-- ===== src/Agent/EventBus/Served.antt =====
-- What a channel holds of the payloads that were offered to it, while its receiver takes from it.
use mu5250_open_ui.Base.{
  ℕ, suc, ◌+◌, ◌%◌, ◌^◌, ◌<◌, ◌≤◌, ◌≡◌, ◌⊎◌, refl, sym, Bool, true, false, List, [], ◌∷◌, ◌++◌,
  append_assoc, length, length-append, min, ltb, ltb→lt, ltb_false→le, arith, inl, inr, Bool-cases,
}
use mu5250_open_ui.Agent.EventBus.{
  Channel, try_send, sent, Act, takes, hangs_up, take_first, act, acts,
}

-- Some of the elements of a list, in their order.
pub data Sublist {V : Type 0} : List V → List V → Type 0 where
  stop : Sublist [] []
  keep : {x : V} {xs ys : List V} → Sublist xs ys → Sublist (x ∷ xs) (x ∷ ys)
  skip : {y : V} {xs ys : List V} → Sublist xs ys → Sublist xs (y ∷ ys)

module _ {V : Type 0} where
  pub Sublist_self : (xs : List V) → Sublist xs xs
  Sublist_self [] = stop
  Sublist_self (x ∷ xs) = keep (Sublist_self xs)

  Sublist-kept : (p : V) {xs ys : List V} → Sublist xs ys → Sublist (xs ++ p ∷ []) (ys ++ p ∷ [])
  Sublist-kept p stop = keep stop
  Sublist-kept p (keep h) = keep (Sublist-kept p h)
  Sublist-kept p (skip h) = skip (Sublist-kept p h)

  Sublist-lost : (p : V) {xs ys : List V} → Sublist xs ys → Sublist xs (ys ++ p ∷ [])
  Sublist-lost p stop = skip stop
  Sublist-lost p (keep h) = keep (Sublist-lost p h)
  Sublist-lost p (skip h) = skip (Sublist-lost p h)

  -- What the receiver has or can still take.
  abbrev pub got : Channel V → List V
  got tx = tx.taken ++ tx.queue

  -- A channel and the count of its listener behind the payloads `all`, of which `lost` were dropped.
  pub record IsServed (all : List V) (before : ℕ) (tx : Channel V) (dropped : ℕ) : Type 0 where
    pub lost : ℕ
    pub in_order : Sublist (got tx) all
    pub counted : lost + length (got tx) ≡ length all
    pub reported : dropped ≡ (before + lost) % 2 ^ 64
    pub bounded : length tx.queue ≤ 64
    pub kept : (tx.connected ≡ false) ⊎ (min 64 (length all) ≤ length (got tx))

  IsServed-take :
      (all : List V) (before : ℕ) (taken queue : List V) (dropped : ℕ)
      → IsServed all before (record { taken = taken; queue = queue; connected = true }) dropped
      → IsServed all before
          (take_first (record { taken = taken; queue = queue; connected = true }) queue)
          dropped
  IsServed-take all before taken [] dropped h = h
  IsServed-take all before taken (p ∷ ps) dropped h =
      let same : (taken ++ p ∷ []) ++ ps ≡ taken ++ (p ∷ ps) = append_assoc taken (p ∷ []) ps in
      record {
        lost = h.lost;
        in_order = rw same h.in_order;
        counted = rw same h.counted;
        reported = h.reported;
        bounded = omega (arith, h.bounded);
        kept = rw same h.kept;
      }

  IsServed-act :
      (all : List V) (before : ℕ) (a : Act) (taken queue : List V) (connected : Bool) (dropped : ℕ)
      → IsServed all before (record { taken = taken; queue = queue; connected = connected }) dropped
      → IsServed all before
          (act a (record { taken = taken; queue = queue; connected = connected }))
          dropped
  unfolding act
  IsServed-act all before takes taken queue true dropped h =
      IsServed-take all before taken queue dropped h
  IsServed-act all before takes taken queue false dropped h = h
  IsServed-act all before hangs_up taken queue connected dropped h = record {
    lost = h.lost;
    in_order = h.in_order;
    counted = h.counted;
    reported = h.reported;
    bounded = h.bounded;
    kept = inl refl;
  }

  pub IsServed-acts :
      (all : List V) (before : ℕ) (doing : List Act) (tx : Channel V) (dropped : ℕ)
      → IsServed all before tx dropped
      → IsServed all before (acts doing tx) dropped
  unfolding acts
  IsServed-acts all before [] tx dropped h = h
  IsServed-acts all before (a ∷ doing) tx dropped h =
      IsServed-acts all before doing (act a tx) dropped
        (IsServed-act all before a tx.taken tx.queue tx.connected dropped h)

  IsServed-kept :
      (all : List V) (before : ℕ) (taken queue : List V) (dropped : ℕ) (p : V)
      → length queue < 64
      → IsServed all before (record { taken = taken; queue = queue; connected = true }) dropped
      → IsServed
          (all ++ p ∷ [])
          before
          (record { taken = taken; queue = queue ++ p ∷ []; connected = true })
          dropped
  IsServed-kept all before taken queue dropped p room h =
      let same : taken ++ (queue ++ p ∷ []) ≡ (taken ++ queue) ++ p ∷ [] =
        sym (append_assoc taken queue (p ∷ [])) in
      let now = length-append (taken ++ queue) (p ∷ []) in
      let then_ = length-append all (p ∷ []) in
      record {
        lost = h.lost;
        in_order = rw same (Sublist-kept p h.in_order);
        counted = rw same (omega (arith, now, then_, h.counted));
        reported = h.reported;
        bounded = omega (arith, length-append queue (p ∷ []));
        kept = rw same (elim h.kept [
          | inl gone ↦ inl gone
          | inr some_kept ↦ inr (omega (arith, now, then_, some_kept))
        ]);
      }

  IsServed-lost :
      (all : List V) (before : ℕ) (tx : Channel V) (dropped : ℕ) (p : V)
      → (tx.connected ≡ false) ⊎ (64 ≤ length tx.queue)
      → IsServed all before tx dropped
      → IsServed (all ++ p ∷ []) before tx ((dropped + 1) % 2 ^ 64)
  IsServed-lost all before tx dropped p full h =
      let now = length-append tx.taken tx.queue in
      let then_ = length-append all (p ∷ []) in
      record {
        lost = suc h.lost;
        in_order = Sublist-lost p h.in_order;
        counted = omega (arith, then_, h.counted);
        reported = omega (arith, h.reported);
        bounded = h.bounded;
        kept = elim full [ inl gone ↦ inl gone | inr many ↦ inr (omega (arith, now, many)) ];
      }

  pub IsServed-send :
      (all : List V) (before : ℕ) (event : List ℕ) (taken queue : List V) (connected : Bool)
      (dropped : ℕ) (p : V)
      → IsServed all before (record { taken = taken; queue = queue; connected = connected }) dropped
      → IsServed
          (all ++ p ∷ [])
          before
          (sent
            (record {
              event = event;
              tx = record { taken = taken; queue = queue; connected = connected };
              dropped = dropped;
            })
            (try_send (record { taken = taken; queue = queue; connected = connected }) p)).tx
          (sent
            (record {
              event = event;
              tx = record { taken = taken; queue = queue; connected = connected };
              dropped = dropped;
            })
            (try_send (record { taken = taken; queue = queue; connected = connected }) p)).dropped
  unfolding try_send
  IsServed-send all before event taken queue true dropped p h =
      elim (Bool-cases (ltb (length queue) 64)) [
        | inl u ↦
            rw u (IsServed-kept all before taken queue dropped p (ltb→lt (length queue) 64 u) h)
        | inr u ↦
            rw u (IsServed-lost all before _ dropped p (inr (ltb_false→le (length queue) 64 u)) h)
      ]
  IsServed-send all before event taken queue false dropped p h =
      IsServed-lost all before _ dropped p (inl refl) h
