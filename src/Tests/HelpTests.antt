-- ===== src/Tests/HelpTests.antt =====
-- jwt/help.py on PyPy, on a machine whose platform module knows no names.
use pyjwt.Prelude.{String, none, ◌≡◌, refl}
use pyjwt.Errors.{ok, raise, os_error}
use pyjwt.Value.{Dict, str, dict, empty, entry}
use pyjwt.Help.{Platform, info}

abbrev pypy : String → Platform
pypy level = record {
  system = ok "Linux";
  release = raise os_error "no release";
  python_implementation = ok "PyPy";
  python_version = ok "3.10.14";
  pypy_version_info = ok (record { major = "7"; minor = "3"; micro = "17"; releaselevel = level });
}

abbrev report_of : String → Dict
report_of version =
    entry "platform" (dict (entry "system" (str "Unknown") (entry "release" (str "Unknown") empty)))
      (entry "implementation"
        (dict (entry "name" (str "PyPy") (entry "version" (str version) empty)))
        (entry "cryptography" (dict (entry "version" (str "") empty))
          (entry "pyjwt" (dict (entry "version" (str "2.12.1") empty)) empty)))

info_final : info (pypy "final") none "2.12.1" ≡ ok (report_of "7.3.17")
unfolding info pyjwt.Help.platform_info pyjwt.Help.implementation_version
info_final = refl

info_beta : info (pypy "beta") none "2.12.1" ≡ ok (report_of "7.3.17beta")
unfolding info pyjwt.Help.platform_info pyjwt.Help.implementation_version
info_beta = refl
