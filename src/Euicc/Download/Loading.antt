-- ===== src/Euicc/Download/Loading.antt =====
-- What loading a package has sent when it returns.
use mu5250_open_ui.Base.{
  ℕ, ◌≡◌, refl, sym, ap, ◌∙◌, true, false, ◌⊎◌, inl, inr, Bool-cases, List, [], ◌∷◌,
}
use mathlib.Core.Path.{subst}
use mu5250_open_ui.Base.Results.{Result, ok, err}
use mu5250_open_ui.Euicc.B64.{decode}
use mu5250_open_ui.Euicc.Session.{
  Apdu, Error, Outcome, done, failed, unfinished, ◌>>=◌, lift, command,
}
use mu5250_open_ui.Euicc.Download.Segments.{Segment, bpp_segments}
use mu5250_open_ui.Euicc.Download.Installation.{
  LoadBppResult, default, is_success, parse_load_bpp_response,
}
use mu5250_open_ui.Euicc.Download.Calls.{segment_loop, load_bound_profile_package}

outcome_of :
    {W A B : Type 0} (o : Outcome W A) (f : A → W → Outcome W B) {b : B} {w'' : W}
    → (elim o [ done a w' ↦ f a w' | failed e w' ↦ failed e w' | unfinished ↦ unfinished ])
      ≡ done b w''
    → (a : A) × (w' : W) × (o ≡ done a w') × (f a w' ≡ done b w'')
outcome_of (done a w') f h = (a, w', refl, h)
outcome_of (failed e w') f h = cc
outcome_of unfinished f h = cc

-- What a call that is done went through.
>>=-eq-done :
    {W A B : Type 0} (m : W → Outcome W A) (f : A → W → Outcome W B) (w : W) {b : B} {w'' : W}
    → (m >>= f) w ≡ done b w''
    → (a : A) × (w' : W) × (m w ≡ done a w') × (f a w' ≡ done b w'')
>>=-eq-done m f w h = outcome_of (m w) f h

done-injective :
    {W A : Type 0} {a b : A} {w w' : W}
    → ◌≡◌ {A = Outcome W A} (done a w) (done b w')
    → (a ≡ b) × (w ≡ w')
done-injective h = (cc, cc)

lift-eq-done :
    {W A : Type 0} (r : Result Error A) (w : W) {a : A} {w' : W}
    → lift r w ≡ done a w'
    → (r ≡ ok a) × (w ≡ w')
lift-eq-done (ok a) w h = (ap ok (done-injective h).0, (done-injective h).1)
lift-eq-done (err e) w h = cc

module _ {W : Type 0} (io : Apdu W) (channel fuel : ℕ) where
  -- The card's answer to one segment.
  abbrev pub Answered : Segment → W → LoadBppResult → W → Type 0
  Answered segment w r w' =
      (bytes : List ℕ) × (resp : List ℕ) × (segment ≡ ok bytes)
      × (command io channel fuel bytes w ≡ done resp w')
      × (parse_load_bpp_response resp ≡ ok r)

  -- Every segment is answered by a success, in order.
  abbrev pub AllAccepted : List Segment → W → W → Type 0
  AllAccepted [] w w' = w ≡ w'
  AllAccepted (s ∷ ss) w w'' =
      (r : LoadBppResult) × (w' : W) × Answered s w r w'
      × (is_success r ≡ true)
      × AllAccepted ss w' w''

  -- The segments before one are answered by a success, and this one is refused with the result.
  abbrev pub Refused : List Segment → W → LoadBppResult → W → Type 0
  Refused [] w r w'' = ⊥
  Refused (s ∷ ss) w r w'' =
      Answered s w r w''
      ⊎ ((q : LoadBppResult) × (w' : W) × Answered s w q w'
          × (is_success q ≡ true)
          × Refused ss w' r w'')

  segment_loop_outcome :
      (ss : List Segment) (result r : LoadBppResult) (w w'' : W)
      → is_success result ≡ true
      → segment_loop io channel fuel result ss w ≡ done r w''
      → ((is_success r ≡ true) × AllAccepted ss w w'')
        ⊎ ((is_success r ≡ false) × Refused ss w r w'')
  unfolding segment_loop
  segment_loop_outcome [] result r w w'' good h =
      let (er, ew) = done-injective h in inl (sym (ap is_success er) ∙ good, ew)
  segment_loop_outcome (s ∷ ss) result r w w'' good h =
      let (bytes, w1, e1, h1) = >>=-eq-done (lift s) _ w h in
      let (es, ew) = lift-eq-done s w e1 in
      let (resp, w2, e2, h2) = >>=-eq-done (command io channel fuel bytes) _ w1 h1 in
      let (r', w3, e3, h3) = >>=-eq-done (lift (parse_load_bpp_response resp)) _ w2 h2 in
      let (ep, ew2) = lift-eq-done (parse_load_bpp_response resp) w2 e3 in
      let answered : Answered s w r' w3 =
        (bytes, resp, es, ap (command io channel fuel bytes) ew ∙ e2 ∙ ap (done resp) ew2, ep) in
      elim (Bool-cases (is_success r')) [
        | inl good' ↦ elim (segment_loop_outcome ss r' r w3 w'' good' (rw good' at h3)) [
          | inl (ok', rest) ↦ inl (ok', (r', w3, answered, good', rest))
          | inr (bad, rest) ↦ inr (bad, inr (r', w3, answered, good', rest))
        ]
        | inr bad ↦
            let (er, ew3) = done-injective (rw bad at h3) in
            inr (
              sym (ap is_success er) ∙ bad,
              inl (
                  subst (λ x. Answered s w x w'') er (subst (λ y. Answered s w r' y) ew3 answered)),
            )
      ]

  -- When loading returns a result, the package was read, and either the result is a success and every
  -- segment was answered by a success, in order, or the card refused a segment with this result after
  -- it accepted those before it, and nothing was sent behind it.
  pub load_outcome :
      (b64_bpp : List ℕ) (r : LoadBppResult) (w w'' : W)
      → load_bound_profile_package io channel fuel b64_bpp w ≡ done r w''
      → (plan : List Segment) × (bpp_segments (decode b64_bpp) ≡ ok plan)
        × (((is_success r ≡ true) × AllAccepted plan w w'')
            ⊎ ((is_success r ≡ false) × Refused plan w r w''))
  unfolding load_bound_profile_package
  load_outcome b64_bpp r w w'' h =
      let (plan, w1, e1, h1) = >>=-eq-done (lift (bpp_segments (decode b64_bpp))) _ w h in
      let (ep, ew) = lift-eq-done (bpp_segments (decode b64_bpp)) w e1 in
      let h1' = subst (λ x. segment_loop io channel fuel default plan x ≡ done r w'') (sym ew) h1 in
      (plan, ep, segment_loop_outcome plan default r w w'' (unfold is_success in refl) h1')
