-- ===== src/Reliability/Envelope/Accepts.antt =====
-- The parts of `check_packet` decide the conditions of Envelope.Conditions, without an exception
-- where no sum of the client's offsets wraps.
use keydrop.Base.{ℕ, suc, ◌+◌, ◌^◌, ◌≤◌, ◌<◌, ◌≡◌, refl, sym, ap, ◌∙◌, ◌↔◌, inl, inr, arith}
use keydrop.Base.{
  true, not, ◌&&◌, ◌||◌, Bool-cases, Option-cases, ==_iff, ltb, ◌==◌, List, [], ◌∷◌, Option, none,
  some,
}
use keydrop.Base.{
  length, get_or, take, drop, All, IsByte, le_value, le_value-lt, length-take, All-take, All-drop,
}
use keydrop.Base.{ok, ◌>>=◌}
use keydrop.Reliability.Crc.{crc32_range}
use keydrop.Reliability.Crc.Detects.{crc32_range-crc32}
use keydrop.Reliability.Check.{
  CorruptionCheckResult, passed, fail, minimum_length_violation, truncated_read, bad_header_marker,
  invalid_field_length, checksum_mismatch,
}
use keydrop.Reliability.Envelope.{CorruptionCheckOptions, read, add_size, Part, ◌then_check◌}
use keydrop.Reliability.Envelope.{check_header_bytes, check_header}
use keydrop.Reliability.Envelope.{
  check_declared, check_length, check_checksum, check_crc, check_packet,
}
use keydrop.Reliability.Envelope.Reads.{read_inside, take-drop-suc, read_value}
use keydrop.Reliability.Envelope.Conditions.{
  InRange, HasHeader, Declares, HasLength, HasChecksum, HasCrc, Accepts, Decides, passing, refusing,
  header_same, header_other, head_eq, tail_eq, replaced, both, value_below, some_eq, length_runs,
  crc_runs,
}

module _ (p : List ℕ) (bytes : All IsByte p) (small : length p < 2 ^ 63) where
  header_bytes-Decides :
      (expected : List ℕ) (off i : ℕ)
      → off + i + length expected ≤ length p
      → Decides
          (check_header_bytes p off i expected)
          (take (length expected) (drop (off + i) p) ≡ expected)
  header_bytes-Decides [] off i fits =
      passing (check_header_bytes p off i []) (unfold check_header_bytes in refl) refl
  header_bytes-Decides (x ∷ xs) off i fits =
      let b = get_or p (off + i) 0 in
      let at : add_size off i ≡ off + i = omega (arith, small) in
      let got : read p (add_size off i) ≡ ok b =
        ap (read p) at ∙ read_inside p (off + i) (omega arith) in
      let here : off + (i + 1) ≡ off + i + 1 = omega arith in
      let first : take (suc (length xs)) (drop (off + i) p)
          ≡ b ∷ take (length xs) (drop (off + (i + 1)) p) =
        take-drop-suc (length xs) p (off + i) (omega arith)
        ∙ ap (λ k. b ∷ take (length xs) (drop k p)) (sym here) in
      let more = header_bytes-Decides xs off (i + 1) (omega arith) in
      let out = check_header_bytes p off i (x ∷ xs) in
      elim (Bool-cases (b == x)) [
        | inl same ↦
            let e : b ≡ x = (==_iff b x).0 same in
            let run : out ≡ check_header_bytes p off (i + 1) xs =
              header_same p off i x xs b got e in
            record {
              answer = more.answer;
              given = run ∙ more.given;
              passes = (
                λ h. first ∙ cc (e, more.passes.0 h),
                λ h. more.passes.1 (tail_eq (sym first ∙ h)),
              );
              failing = more.failing;
            }
        | inr other ↦
            refusing out (fail bad_header_marker (add_size off i))
              (header_other p off i x xs b got other) refl
              (λ h. cc ((==_iff b x).1 (head_eq (sym first ∙ h)), other))
      ]

  header-Decides :
      (o : CorruptionCheckOptions) → InRange o → Decides (check_header p o) (HasHeader p o)
  header-Decides o range =
      let n = length o.expected_header in
      let at : add_size o.header_offset n ≡ o.header_offset + n = omega (arith, range.header) in
      elim (Bool-cases (n == 0)) [
        | inl empty ↦
            passing (check_header p o) (unfold check_header in rw empty)
              (λ ne. absurd (ground arith))
        | inr some_bytes ↦ elim (Bool-cases (ltb (length p) (add_size o.header_offset n))) [
          | inl short ↦
              refusing (check_header p o) (fail truncated_read (length p))
                (unfold check_header in ground arith) refl
                (λ h. absurd (ground (arith, h (λ e. ground arith))))
          | inr fits ↦
              let run : check_header p o
                  ≡ check_header_bytes p o.header_offset 0 o.expected_header =
                unfold check_header in ground arith in
              let here : o.header_offset + 0 ≡ o.header_offset = omega arith in
              let inside : o.header_offset + n ≤ length p = ground arith in
              replaced (check_header p o) run
                (
                  λ h ne. (inside, ap (λ k. take n (drop k p)) (sym here) ∙ h),
                  λ h. ap (λ k. take n (drop k p)) here ∙ (h (λ e. ground arith)).1,
                )
                (header_bytes-Decides o.expected_header o.header_offset 0 (omega arith))
        ]
      ]

  declared-Decides :
      (o : CorruptionCheckOptions) (n : ℕ)
      → InRange o
      → n < 2 ^ 32
      → Decides (check_declared p o n) (Declares p o n)
  declared-Decides o n range lt =
      let at : add_size o.payload_offset n ≡ o.payload_offset + n = omega (arith, range.payload) in
      let part = check_declared p o n in
      elim (Bool-cases (not (o.max_payload_length == 0) && ltb o.max_payload_length n)) [
        | inl over ↦
            refusing part (fail invalid_field_length o.length_field_offset)
              (unfold check_declared in ground arith) refl
              (λ h. absurd (ground (arith, h.0 (λ e. ground arith))))
        | inr within ↦ elim (Bool-cases (ltb (length p) (add_size o.payload_offset n))) [
          | inl short ↦
              refusing part (fail truncated_read (length p)) (unfold check_declared in ground arith)
                refl (λ h. absurd (ground (arith, h.1)))
          | inr inside ↦
              elim (Bool-cases
                (o.strict_length_match && not (length p == add_size o.payload_offset n))) [
                  | inl long ↦
                      refusing part (fail invalid_field_length (add_size o.payload_offset n))
                        (unfold check_declared in ground arith) refl
                        (λ h. absurd (ground (arith, h.2 (ground arith))))
                  | inr exact ↦
                      passing part (unfold check_declared in ground arith)
                        (λ ne. ground arith, ground arith, λ strict. ground arith)
                ]
        ]
      ]

  value_small : (n off : ℕ) → n ≤ 4 → le_value (take n (drop off p)) < 2 ^ 32
  value_small n off four =
      let l = take n (drop off p) in
      let lt = le_value-lt l (All-take IsByte n _ (All-drop IsByte off p bytes)) in
      value_below (length l) (le_value l) (omega (arith, length-take n (drop off p))) lt

  length-Decides :
      (o : CorruptionCheckOptions) → InRange o → Decides (check_length p o) (HasLength p o)
  length-Decides o range =
      let part = check_length p o in
      let size = o.length_field_size in
      let off = o.length_field_offset in
      elim (Bool-cases o.enable_length_prefix) [
        | inr disabled ↦ passing part (unfold check_length in ground arith) (λ e. cc)
        | inl enabled ↦ elim (Bool-cases (size == 1 || size == 2 || size == 4)) [
          | inr unsupported ↦
              refusing part (fail invalid_field_length off) (unfold check_length in ground arith)
                refl (λ h. absurd (ground (arith, (h enabled).0)))
          | inl supported ↦
              let four : size ≤ 4 = ground arith in
              let at : add_size off size ≡ off + size = omega (arith, range.prefix) in
              elim (Bool-cases (ltb (length p) (add_size off size))) [
                | inl short ↦
                    refusing part (fail truncated_read (length p))
                      (unfold check_length in ground arith) refl
                      (λ h. absurd (ground (arith, (h enabled).1)))
                | inr inside ↦
                    let fits : off + size ≤ length p = ground arith in
                    let n = le_value (take size (drop off p)) in
                    let got = read_value p bytes small size off four fits in
                    let run : part ≡ check_declared p o n =
                      length_runs p o enabled supported inside
                      ∙ ap (λ r. r >>= check_declared p o) got in
                    replaced part run (λ d e. (ground arith, fits, d), λ h. (h enabled).2)
                      (declared-Decides o n range (value_small size off four))
              ]
        ]
      ]

  checksum-Decides : (o : CorruptionCheckOptions) → Decides (check_checksum p o) (HasChecksum p o)
  checksum-Decides o = elim (Option-cases o.checksum_validator) [
    | inl e ↦ passing (check_checksum p o) (unfold check_checksum in ground arith) (λ f h. cc)
    | inr (f, e) ↦ elim (Bool-cases (f p)) [
      | inl good ↦
          passing (check_checksum p o) (unfold check_checksum in ground arith)
            (λ g h. ap (λ k. k p) (some_eq g f (sym h ∙ e)) ∙ good)
      | inr bad ↦
          refusing (check_checksum p o) (fail checksum_mismatch (length p))
            (unfold check_checksum in ground arith) refl (λ h. cc (h f e, bad))
    ]
  ]

  crc-Decides : (o : CorruptionCheckOptions) → InRange o → Decides (check_crc p o) (HasCrc p o)
  crc-Decides o range =
      let part = check_crc p o in
      let off = o.crc32_offset in
      let at : add_size off 4 ≡ off + 4 = omega (arith, range.crc) in
      elim (Bool-cases o.enable_crc32) [
        | inr disabled ↦ passing part (unfold check_crc in ground arith) (λ e. cc)
        | inl enabled ↦ elim (Bool-cases (ltb (length p) (add_size off 4))) [
          | inl short ↦
              refusing part (fail truncated_read (length p)) (unfold check_crc in ground arith) refl
                (λ h. absurd (ground (arith, (h enabled).0)))
          | inr inside ↦
              let fits : off + 4 ≤ length p = ground arith in
              let expected = le_value (take 4 (drop off p)) in
              let got = read_value p bytes small 4 off (omega arith) fits in
              let same = crc32_range-crc32 p off in
              let run = crc_runs p o expected enabled inside got in
              elim (Bool-cases (expected == crc32_range p 0 off)) [
                | inr other ↦
                    refusing part (fail checksum_mismatch off) (run ∙ ground arith) refl
                      (λ h. absurd (ground (arith, (h enabled).1)))
                | inl match ↦
                    elim (Bool-cases (o.strict_length_match && not (length p == add_size off 4))) [
                      | inl trailing ↦
                          refusing part (fail invalid_field_length (add_size off 4))
                            (run ∙ ground arith) refl
                            (λ h. absurd (ground (arith, (h enabled).2 (ground arith))))
                      | inr exact ↦
                          passing part (run ∙ ground arith)
                            (λ e. (fits, ground arith, λ strict. ground arith))
                    ]
              ]
        ]
      ]

-- The result that `check_packet` makes of the parts.
verdict : Option CorruptionCheckResult → CorruptionCheckResult
verdict none = passed
verdict (some f) = f

check_packet-verdict :
    (p : List ℕ) (o : CorruptionCheckOptions) (answer : Option CorruptionCheckResult)
    → o.minimum_length ≤ length p
    → (check_header p o
        then_check check_length p o
        then_check check_checksum p o
        then_check check_crc p o)
      ≡ ok answer
    → check_packet p o ≡ ok (verdict answer)
unfolding check_packet verdict
check_packet-verdict p o none h e = rw e (ground arith)
check_packet-verdict p o (some f) h e = rw e (ground arith)

verdict-ok : {P : Type 0} (part : Part) (d : Decides part P) → ((verdict d.answer).ok ≡ true) ↔ P
unfolding verdict
verdict-ok part d = elim (Option-cases d.answer) [
  | inl e ↦ (λ h. d.passes.0 e, λ h. ap (λ a. (verdict a).ok) e)
  | inr (f, e) ↦ (λ h. absurd (ground (arith, d.failing f e)), λ h. cc (d.passes.1 h, e))
]

-- Where the offsets are in range, `check_packet` throws nothing, and its result is positive exactly
-- where the packet is as long as asked, has the expected header, a payload of the declared length,
-- the approval of the client's validator, and the right CRC, each if the options ask for it.
pub check_packet-Accepts :
    (p : List ℕ) (o : CorruptionCheckOptions)
    → All IsByte p
    → length p < 2 ^ 63
    → InRange o
    → (r : CorruptionCheckResult) × (check_packet p o ≡ ok r) × ((r.ok ≡ true) ↔ Accepts p o)
unfolding check_packet
check_packet-Accepts p o bytes small range = elim (Bool-cases (ltb (length p) o.minimum_length)) [
  | inl short ↦ (
    fail minimum_length_violation (length p),
    ground arith,
    (λ h. cc, λ h. absurd (ground (arith, h.0))),
  )
  | inr enough ↦
      let long : o.minimum_length ≤ length p = ground arith in
      let first =
        both _ _ (header-Decides p bytes small o range) (length-Decides p bytes small o range) in
      let second = both _ _ first (checksum-Decides p bytes small o) in
      let all = both _ _ second (crc-Decides p bytes small o range) in
      let yields = verdict-ok _ all in
      (
        verdict all.answer,
        check_packet-verdict p o all.answer long all.given,
        (
          λ h.
              let (abc, d) = yields.0 h in
              let (ab, c) = abc in let (a, b) = ab in (long, a, b, c, d),
          λ (m, a, b, c, d). yields.1 (((a, b), c), d),
        ),
      )
]
