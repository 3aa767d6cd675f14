-- ===== src/System/Kernel/RoundTrip.antt =====
-- A printed version is detected as itself, and the cache keeps the first answer.
use kubeadapt_k8s_pulse.Prelude.{
  Option, ap, arith, inl, none, pos, refl, some, ℕ, ℤ, ◌++◌, ◌<◌, ◌^◌, ◌∷◌, ◌≡◌,
}
use kubeadapt_k8s_pulse.Prelude.Text.{Text}
use kubeadapt_k8s_pulse.Go.Strconv.{NumError, decimal, itoa}
use kubeadapt_k8s_pulse.Go.Strconv.RoundTrip.{atoi-decimal, decimal-Lacks}
use kubeadapt_k8s_pulse.Go.Strings.{
  Lacks, Lacks-append, cut_at-append, cut_at-over, split, split-append, split_whole,
}
use kubeadapt_k8s_pulse.System.Kernel.{
  KernelVersion, detect_kernel_version, err, get_kernel_version, invalid_version_format, ok,
  parse_parts, patch_of, version_string, with_major, with_minor,
}

abbrev version : ℕ → ℕ → ℕ → KernelVersion
version a b c = record { major = pos a; minor = pos b; patch = pos c }

version_string-Lacks : (s a b c : ℕ) → s < 46 → Lacks s (version_string (version a b c))
unfolding version_string itoa
version_string-Lacks s a b c h =
    Lacks-append s (decimal a) _ (decimal-Lacks s a (inl (omega arith))) (
      ground arith,
      Lacks-append s (decimal b) _ (decimal-Lacks s b (inl (omega arith)))
          (ground arith, decimal-Lacks s c (inl (omega arith))),
    )

parse_parts-version_string :
    (text : Text) (a b c : ℕ)
    → (a < 2 ^ 63) × (b < 2 ^ 63) × (c < 2 ^ 63)
    → parse_parts text (split b'.' (version_string (version a b c))) ≡ ok (version a b c)
unfolding parse_parts version_string itoa with_major with_minor patch_of
parse_parts-version_string text a b c (ha, hb, hc) =
    rw
      (
        split-append b'.' (decimal a) _ (decimal-Lacks b'.' a (inl (omega arith))),
        split-append b'.' (decimal b) _ (decimal-Lacks b'.' b (inl (omega arith))),
        split_whole b'.' (decimal c) (decimal-Lacks b'.' c (inl (omega arith))),
        atoi-decimal a ha,
        atoi-decimal b hb,
      )
      (ap (λ (r : ℤ × Option NumError). ok (record { major = pos a; minor = pos b; patch = r.0 }))
        (atoi-decimal c hc))

-- The release that the kernel reports for a version of three numbers below 2 ^ 63, with a
-- distribution's suffix after a dash and the zero bytes that pad the field, is detected as that
-- version. The suffix has no zero byte.
pub detect-version_string :
    (a b c : ℕ) (suffix padding : Text)
    → (a < 2 ^ 63) × (b < 2 ^ 63) × (c < 2 ^ 63)
    → Lacks 0 suffix
    → detect_kernel_version
        (some (version_string (version a b c) ++ b'-' ∷ (suffix ++ 0 ∷ padding)))
      ≡ ok (version a b c)
unfolding detect_kernel_version
detect-version_string a b c suffix padding h clean =
    rw
      (
        cut_at-over 0 (version_string (version a b c)) (b'-' ∷ (suffix ++ 0 ∷ padding))
            (version_string-Lacks 0 a b c (omega arith)),
        cut_at-append 0 (b'-' ∷ suffix) padding (refl, clean),
        split-append b'-' (version_string (version a b c)) suffix
            (version_string-Lacks b'-' a b c (omega arith)),
      )
      (parse_parts-version_string _ a b c h)

-- A release that has neither a dot nor a dash before the zero byte that ends it is refused, and
-- quoted in the error.
pub detect-no_dot :
    (text suffix padding : Text)
    → Lacks 0 text × Lacks b'-' text × Lacks b'.' text
    → detect_kernel_version (some (text ++ 0 ∷ padding)) ≡ err (invalid_version_format text)
unfolding detect_kernel_version parse_parts
detect-no_dot text suffix padding (z, d, p) =
    rw (cut_at-append 0 text padding z, split_whole b'-' text d, split_whole b'.' text p)

-- After the first call the answer no longer depends on what uname says.
pub get_kernel_version-cached :
    (first later : Option Text)
    → get_kernel_version later (get_kernel_version first none).1
      ≡ (detect_kernel_version first, some (detect_kernel_version first))
unfolding get_kernel_version
get_kernel_version-cached first later = refl
