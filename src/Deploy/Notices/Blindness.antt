-- ===== src/Deploy/Notices/Blindness.antt =====
-- scripts/production_auto_deploy.py: how often a stretch of blind polls is announced.
use nas_platform.Common.{
  ℕ, zero, suc, ◌+◌, ◌-◌, ◌≤◌, inl, inr, not, ◌&&◌, ltb, Bool-cases, ◌≡◌, refl, Bool, true, false,
  List, [], ◌∷◌, ◌++◌, arith, any, length, length-append, ap, ◌∙◌, ◌<◌, drop, if◌then◌else◌,
}
use nas_platform.Deploy.Notices.{Files, Notice, note_blind_poll}

-- A stretch of blind polls, with what the publisher says at each.
abbrev pub blind_stretch : List Bool → Files → List Notice × Files
blind_stretch [] files = ([], files)
blind_stretch (published ∷ more) files =
    let (notices, files') = note_blind_poll published files in
    let (later, files'') = blind_stretch more files' in (notices ++ later, files'')

-- One blind poll: what it counts, what it announces, and the alarm that it leaves.
blind_step :
    (published : Bool) (files : Files)
    → ((note_blind_poll published files).1.blind_polls ≡ files.blind_polls + 1)
      × (files.blind_alarm ≡ true
          → ((note_blind_poll published files).0 ≡ [])
            × ((note_blind_poll published files).1.blind_alarm ≡ true))
      × (files.blind_alarm ≡ false
          → files.blind_polls < 2
          → ((note_blind_poll published files).0 ≡ [])
            × ((note_blind_poll published files).1.blind_alarm ≡ false))
      × (files.blind_alarm ≡ false
          → 2 ≤ files.blind_polls
          → (length (note_blind_poll published files).0 ≡ (if published then 1 else 0))
            × ((note_blind_poll published files).1.blind_alarm ≡ published))
unfolding note_blind_poll
blind_step published files = (
  ground arith,
  λ h. (ground arith, ground arith),
  λ h k. (ground arith, ground arith),
  λ h k. (ground arith, ground arith),
)

-- Once it was announced, a stretch is not announced again.
announced :
    (more : List Bool) (files : Files)
    → files.blind_alarm ≡ true
    → (blind_stretch more files).0 ≡ []
announced [] files h = refl
announced (published ∷ more) files h =
    let (quiet, alarm) = (blind_step published files).1 h in
    rw quiet (announced more (note_blind_poll published files).1 alarm)

third :
    (more : List Bool) (files : Files)
    → files.blind_alarm ≡ false
    → 2 ≤ files.blind_polls
    → length (blind_stretch more files).0 ≡ (if any (λ p. p) more then 1 else 0)
unfolding any
third [] files h k = refl
third (true ∷ more) files h k =
    let (one, alarm) = (blind_step true files).3 h k in
    let files' = (note_blind_poll true files).1 in
    omega (
      arith,
      length-append (note_blind_poll true files).0 (blind_stretch more files').0,
      one,
      ap length (announced more files' alarm),
    )
third (false ∷ more) files h k =
    let (one, alarm) = (blind_step false files).3 h k in
    let files' = (note_blind_poll false files).1 in
    let count = (blind_step false files).0 in
    let later = third more files' alarm (omega (arith, count)) in
    let both = length-append (note_blind_poll false files).0 (blind_stretch more files').0 in
    let short : length (blind_stretch (false ∷ more) files).0
        ≡ length (blind_stretch more files').0 =
      omega (arith, both, one) in
    short ∙ later

-- A poll below the threshold changes nothing but the count.
early :
    (published : Bool) (more : List Bool) (files : Files)
    → files.blind_alarm ≡ false
    → files.blind_polls < 2
    → (blind_stretch (published ∷ more) files).0
      ≡ (blind_stretch more (note_blind_poll published files).1).0
early published more files h k = rw ((blind_step published files).2 h k).0 refl

drop_nil : (n : ℕ) (polls : List Bool) → polls ≡ [] → drop n polls ≡ []
drop_nil zero polls e = e
drop_nil (suc n) [] e = refl
drop_nil (suc n) (p ∷ polls) e = cc

-- With the alarm off, whatever was counted before.
unannounced :
    (polls : List Bool) (files : Files)
    → files.blind_alarm ≡ false
    → length (blind_stretch polls files).0
      ≡ (if any (λ p. p) (drop (2 - files.blind_polls) polls) then 1 else 0)
unfolding any
unannounced [] files h = rw (drop_nil (2 - files.blind_polls) [] refl) refl
unannounced (p ∷ more) files h = elim (Bool-cases (ltb files.blind_polls 2)) [
  | inr late ↦
      let few : 2 - files.blind_polls ≡ 0 = ground arith in
      rw few (third (p ∷ more) files h (ground arith))
  | inl soon ↦
      let files' = (note_blind_poll p files).1 in
      let small : files.blind_polls < 2 = ground arith in
      let counted = (blind_step p files).0 in
      let one_less : 2 - files.blind_polls ≡ suc (2 - files'.blind_polls) =
        omega (arith, small, counted) in
      rw one_less (
        ap length (early p more files h small)
        ∙ unannounced more files' ((blind_step p files).2 h small).1)
]

-- A stretch of blind polls is announced at most once. With the alarm off it is announced once, at the
-- first poll at which the publisher takes the message, from the one on that brings the count of blind
-- polls to three; where there is none, or with the alarm of an earlier stretch still on, it is not
-- announced.
pub blind_stretch-once :
    (polls : List Bool) (files : Files)
    → length (blind_stretch polls files).0 ≡ (
        if not files.blind_alarm && any (λ p. p) (drop (2 - files.blind_polls) polls) then 1 else 0)
blind_stretch-once polls files = elim (Bool-cases files.blind_alarm) [
  | inl on ↦ ground (arith, ap length (announced polls files on))
  | inr off ↦ ground (arith, unannounced polls files off)
]
