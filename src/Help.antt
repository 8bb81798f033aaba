-- ===== src/Help.antt =====
-- jwt/help.py: `info`, the versions for a bug report. What the code asks of the modules platform and
-- sys is the parameter `Platform`. `main`, which prints the result, is left out.
use Prim.Native.String.{◌++◌}
use pyjwt.Prelude.{Bool, true, false, String, Option, none, some, ◌≡◌, refl, ◌==◌, if◌then◌else◌}
use pyjwt.Errors.{Result, ok, err, os_error, except_try, ◌>>=◌}
use pyjwt.Errors.Raising.{RaisesOnly}
use pyjwt.Value.{Dict, str, dict, empty, entry}

-- sys.pypy_version_info, its numbers as a text shows them.
pub record PypyVersionInfo : Type 0 where
  pub major : String
  pub minor : String
  pub micro : String
  pub releaselevel : String

pub record Platform : Type 0 where
  pub system : Result String
  pub release : Result String
  pub python_implementation : Result String
  pub python_version : Result String
  pub pypy_version_info : Result PypyVersionInfo

-- What `import cryptography` finds, with `none` for ModuleNotFoundError.
abbrev pub cryptography_version : Option String → String
cryptography_version none = ""
cryptography_version (some version) = version

abbrev pub system_info : String → String → Dict
system_info system release = entry "system" (str system) (entry "release" (str release) empty)

abbrev pub named_or_unknown : Result String → Result String → Result Dict
named_or_unknown of_system of_release =
    except_try (do system ← of_system; release ← of_release; ok (system_info system release))
      os_error (ok (system_info "Unknown" "Unknown"))

unfoldable pub platform_info : Platform → Result Dict
platform_info p = named_or_unknown p.system p.release

abbrev pub pypy_version : PypyVersionInfo → String
pypy_version v =
    let numbers = v.major ++ "." ++ v.minor ++ "." ++ v.micro in
    if v.releaselevel == "final" then numbers else numbers ++ v.releaselevel

-- The `if` chain, on the two tests of the name.
abbrev pub version_of : Result String → Result PypyVersionInfo → Bool → Bool → Result String
version_of python_version pypy_version_info is_cpython is_pypy =
    if is_cpython
    then python_version
    else if is_pypy
    then (do v ← pypy_version_info; ok (pypy_version v))
    else ok "Unknown"

unfoldable pub implementation_version :
    Result String → Result PypyVersionInfo → String → Result String
implementation_version python_version pypy_version_info implementation =
    version_of python_version pypy_version_info (implementation == "CPython")
      (implementation == "PyPy")

abbrev version_entry : String → Dict
version_entry version = entry "version" (str version) empty

abbrev pub report : Dict → String → String → String → String → Dict
report of_platform implementation version cryptography pyjwt_version =
    entry "platform" (dict of_platform) (
      entry "implementation" (dict (entry "name" (str implementation) (version_entry version))) (
        entry "cryptography" (dict (version_entry cryptography))
          (entry "pyjwt" (dict (version_entry pyjwt_version)) empty)))

unfoldable pub info : Platform → Option String → String → Result Dict
info p cryptography pyjwt_version = do
  of_platform ← platform_info p
  implementation ← p.python_implementation
  version ← implementation_version p.python_version p.pypy_version_info implementation
  ok (report of_platform implementation version (cryptography_version cryptography) pyjwt_version)

named_or_unknown-returns :
    (system release : Result String)
    → RaisesOnly os_error system
    → RaisesOnly os_error release
    → (d : Dict) × (named_or_unknown system release ≡ ok d)
named_or_unknown-returns (ok s) (ok r) h h' = (system_info s r, refl)
named_or_unknown-returns (ok s) (err e) h h' = (system_info "Unknown" "Unknown", rw h')
named_or_unknown-returns (err e) release h h' = (system_info "Unknown" "Unknown", rw h)

version_of-returns :
    (version : String) (v : PypyVersionInfo) (is_cpython is_pypy : Bool)
    → (s : String) × (version_of (ok version) (ok v) is_cpython is_pypy ≡ ok s)
version_of-returns version v true is_pypy = (version, refl)
version_of-returns version v false true = (pypy_version v, refl)
version_of-returns version v false false = ("Unknown", refl)

-- A report is made also where the platform module knows no names and says so by OSError.
info-returns :
    (p : Platform) (cryptography : Option String) (pyjwt_version name version : String)
    (v : PypyVersionInfo)
    → RaisesOnly os_error p.system
    → RaisesOnly os_error p.release
    → p.python_implementation ≡ ok name
    → p.python_version ≡ ok version
    → p.pypy_version_info ≡ ok v
    → (d : Dict) × (info p cryptography pyjwt_version ≡ ok d)
unfolding info platform_info implementation_version
info-returns p cryptography pyjwt_version name version v h h' e e1 e2 =
    let (of_platform, f) = named_or_unknown-returns p.system p.release h h' in
    let (s, g) = version_of-returns version v (name == "CPython") (name == "PyPy") in
    (
      report of_platform name s (cryptography_version cryptography) pyjwt_version,
      rw (f, e, e1, e2, g),
    )
