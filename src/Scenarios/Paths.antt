-- ===== src/Scenarios/Paths.antt =====
-- The functions of path/filepath on concrete paths.
use nomici_orchestrator.Common.{◌≡◌, refl}
use nomici_orchestrator.Paths.{clean, dir}

clean_tests :
    (clean "a//b/./c/.." ≡ "a/b")
    × (clean "/../x/" ≡ "/x")
    × (clean "" ≡ ".")
    × (clean "../../a" ≡ "../../a")
    × (clean "/" ≡ "/")
    × (clean "a/../.." ≡ "..")
unfolding clean
clean_tests = (refl, refl, refl, refl, refl, refl)

dir_tests : (dir "/a/b" ≡ "/a") × (dir "/a" ≡ "/") × (dir "a" ≡ ".") × (dir "a/b/" ≡ "a/b")
unfolding dir
dir_tests = (refl, refl, refl, refl)
