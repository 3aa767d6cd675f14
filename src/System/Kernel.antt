-- ===== src/System/Kernel.antt =====
-- internal/system/kernel.go: detection of the kernel's version, cached once per process.
pub mod RoundTrip
pub mod Order
use kubeadapt_k8s_pulse.Prelude.{
  Bool, List, Option, [], false, if◌then◌else◌, inl, inr, none, not, pos, some, true, ℕ, ℤ, ◌&&◌,
  ◌++◌, ◌∷◌, ◌⊎◌,
}
use kubeadapt_k8s_pulse.Prelude.Int.{ltb_ℤ}
use kubeadapt_k8s_pulse.Prelude.Text.{Text, codes}
use kubeadapt_k8s_pulse.Go.Strconv.{NumError, atoi, itoa}
use kubeadapt_k8s_pulse.Go.Strings.{cut_at, split}

pub record KernelVersion : Type 0 where
  pub major : ℤ
  pub minor : ℤ
  pub patch : ℤ

-- (kv KernelVersion) String
unfoldable pub version_string : KernelVersion → Text
version_string kv = itoa kv.major ++ b'.' ∷ (itoa kv.minor ++ b'.' ∷ itoa kv.patch)

-- Lexicographic comparison of two ints, as Go writes them.
abbrev pub eq_ℤ : ℤ → ℤ → Bool
eq_ℤ a b = not (ltb_ℤ a b) && not (ltb_ℤ b a)

unfoldable pub is_at_least : KernelVersion → ℤ → ℤ → Bool
is_at_least kv major minor =
    if ltb_ℤ major kv.major
    then true
    else if eq_ℤ kv.major major && not (ltb_ℤ kv.minor minor)
    then true
    else false

-- The errors of detectKernelVersion, with the text that each message quotes.
pub data KernelError : Type 0 where
  uname_failed : KernelError
  invalid_version_format invalid_major invalid_minor : Text → KernelError

pub data Detection : Type 0 where
  ok : KernelVersion → Detection
  err : KernelError → Detection

-- patch, _ = strconv.Atoi(versionParts[2]) if there is a third part: the error is dropped.
patch_of : List Text → ℤ
patch_of [] = pos 0
patch_of (p ∷ ps) = (atoi p).0

with_minor : Text → ℤ → ℤ × Option NumError → List Text → Detection
with_minor text major (minor, some e) more = err (invalid_minor text)
with_minor text major (minor, none) more =
    ok (record { major = major; minor = minor; patch = patch_of more })

with_major : Text → ℤ × Option NumError → Text → List Text → Detection
with_major text (major, some e) minor more = err (invalid_major text)
with_major text (major, none) minor more = with_minor minor major (atoi minor) more

-- versionParts := strings.Split(parts[0], ".")
parse_parts : Text → List Text → Detection
parse_parts text [] = err (invalid_version_format text)
parse_parts text (major ∷ []) = err (invalid_version_format text)
parse_parts text (major ∷ minor ∷ more) = with_major major (atoi major) minor more

-- parts := strings.Split(release, "-"); only parts[0] is read. Split never gives an empty list.
parse_release : List Text → Detection
parse_release [] = err (invalid_version_format [])
parse_release (p ∷ ps) = parse_parts p (split b'.' p)

-- The release field of uname as its bytes; `none` means that uname failed.
unfoldable pub detect_kernel_version : Option Text → Detection
unfolding parse_release parse_parts with_major with_minor patch_of
detect_kernel_version none = err uname_failed
detect_kernel_version (some release) = parse_release (split b'-' (cut_at 0 release))

-- The package's sync.Once with the result that it stores: the first call detects.
unfoldable pub get_kernel_version : Option Text → Option Detection → Detection × Option Detection
get_kernel_version uname (some cached) = (cached, some cached)
get_kernel_version uname none = let found = detect_kernel_version uname in (found, some found)

supports : Detection → Bool
supports (err e) = false
supports (ok kv) = is_at_least kv (pos 5) (pos 6)

unfoldable pub supports_lookup_and_delete : Option Text → Option Detection → Bool × Option Detection
unfolding supports get_kernel_version
supports_lookup_and_delete uname cache =
    let (found, cache') = get_kernel_version uname cache in (supports found, cache')

-- GetHostname: the name, or the text of its error, from what os.Hostname answers.
unfoldable pub get_hostname : Text ⊎ Text → Text ⊎ Text
get_hostname (inl e) = inl (codes "failed to get hostname: " ++ e)
get_hostname (inr hostname) = inr hostname
