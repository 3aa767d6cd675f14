-- ===== src/Bpf/Version.antt =====
-- getKernelVersionUint32 of internal/bpf/loader_linux.go: MAJOR << 16 | MINOR << 8 | PATCH.
use kubeadapt_k8s_pulse.Prelude.{
  Option, arith, negsuc, pos, true, ℕ, ℤ, ◌%◌, ◌*◌, ◌+◌, ◌-◌, ◌<◌, ◌^◌, ◌≡◌, ◌≤◌,
}
use kubeadapt_k8s_pulse.Prelude.Bits.{bit_or-shifted}
use kubeadapt_k8s_pulse.Prelude.Text.{Text}
use Prim.Native.Nat.{bit_or}
use kubeadapt_k8s_pulse.System.Kernel.{
  Detection, KernelError, KernelVersion, err, get_kernel_version, is_at_least, ok,
}

-- A Go int as its 64-bit pattern.
abbrev word : ℤ → ℕ
word (pos n) = n % 2 ^ 64
word (negsuc n) = 2 ^ 64 - 1 - n % 2 ^ 64

-- x << k on 64 bits
abbrev shift_left : ℕ → ℕ → ℕ
shift_left x k = x * 2 ^ k % 2 ^ 64

-- uint32(kv.Major<<16 | kv.Minor<<8 | kv.Patch)
unfoldable pub kernel_version_code : KernelVersion → ℕ
kernel_version_code kv =
    bit_or (bit_or (shift_left (word kv.major) 16) (shift_left (word kv.minor) 8)) (word kv.patch)
    % 2 ^ 32

pub data VersionCode : Type 0 where
  code : ℕ → VersionCode
  unknown : KernelError → VersionCode

code_of : Detection → VersionCode
code_of (ok kv) = code (kernel_version_code kv)
code_of (err e) = unknown e

-- (m *Manager) getKernelVersionUint32, on the process's cached detection
unfoldable pub get_kernel_version_uint32 :
    Option Text → Option Detection → VersionCode × Option Detection
unfolding code_of
get_kernel_version_uint32 uname cache =
    let (found, cache') = get_kernel_version uname cache in (code_of found, cache')

top_fields :
    (a b : ℕ)
    → a < 2 ^ 16
    → b < 256
    → bit_or (shift_left (word (pos a)) 16) (shift_left (word (pos b)) 8) ≡ a * 65536 + b * 256
top_fields a b ha hb =
    let ea : shift_left (word (pos a)) 16 ≡ a * 2 ^ 16 = omega arith in
    let eb : shift_left (word (pos b)) 8 ≡ b * 256 = omega arith in
    rw (ea, eb) (bit_or-shifted 16 a (b * 256) (omega arith))

-- A version whose major number is below 2 ^ 16 and whose minor and patch numbers fit a byte is
-- coded in the kernel's format.
pub kernel_version_code-bytes :
    (a b c : ℕ)
    → a < 2 ^ 16
    → b < 256
    → c < 256
    → kernel_version_code (record { major = pos a; minor = pos b; patch = pos c })
      ≡ a * 65536 + b * 256 + c
unfolding kernel_version_code
kernel_version_code-bytes a b c ha hb hc =
    let high = top_fields a b ha hb in
    let split : a * 65536 + b * 256 ≡ (a * 256 + b) * 2 ^ 8 = omega arith in
    let ec : word (pos c) ≡ c = omega arith in
    rw (high, ec, split, bit_or-shifted 8 (a * 256 + b) c hc) (omega arith)

-- If the code of a version is at most that of another, both with a major number below 2 ^ 16 and
-- minor and patch numbers that fit a byte, then IsAtLeast takes the second for at least the first.
pub kernel_version_code_mono :
    (a b c a' b' c' : ℕ)
    → (a < 2 ^ 16) × (b < 256) × (c < 256)
    → (a' < 2 ^ 16) × (b' < 256) × (c' < 256)
    → kernel_version_code (record { major = pos a; minor = pos b; patch = pos c })
      ≤ kernel_version_code (record { major = pos a'; minor = pos b'; patch = pos c' })
    → is_at_least (record { major = pos a'; minor = pos b'; patch = pos c' }) (pos a) (pos b) ≡ true
unfolding is_at_least
kernel_version_code_mono a b c a' b' c' h h' le = ground (
  arith,
  kernel_version_code-bytes a b c h.0 h.1 h.2,
  kernel_version_code-bytes a' b' c' h'.0 h'.1 h'.2,
)

-- A patch number of 256 + c, with c below 256, spills over an even minor number below 254: the
-- version is coded like patch c of the next minor number. The major number is below 2 ^ 16.
pub kernel_version_code_spills :
    (a half c : ℕ)
    → a < 2 ^ 16
    → half < 127
    → c < 256
    → kernel_version_code (record { major = pos a; minor = pos (2 * half); patch = pos (256 + c) })
      ≡ kernel_version_code (record { major = pos a; minor = pos (2 * half + 1); patch = pos c })
unfolding kernel_version_code
kernel_version_code_spills a half c ha hb hc =
    let high = top_fields a (2 * half) ha (omega arith) in
    let split : a * 65536 + 2 * half * 256 ≡ (a * 128 + half) * 2 ^ 9 = omega arith in
    let ec : word (pos (256 + c)) ≡ 256 + c = omega arith in
    rw (high, ec, split, bit_or-shifted 9 (a * 128 + half) (256 + c) (omega arith))
      (omega (arith, kernel_version_code-bytes a (2 * half + 1) c ha (omega arith) hc))
