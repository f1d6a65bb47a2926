-- ===== src/Tests/ManagerTests.antt =====
-- The manager of the plugins at concrete inputs.
use circonus_agent.Prelude.{◌≡◌, refl, Bool, false, List, [], ◌∷◌}
use circonus_agent.Prelude.Bytes.{Bytes, codes}
use circonus_agent.Prelude.Strconv.{lookup}
use circonus_agent.Plugins.Manager.{ids_of, run}
use circonus_agent.Plugins.Names.{FileInfo}
use circonus_agent.Plugins.Scanning.{scan_files, verify_files}
use circonus_agent.Plugins.Selection.{Returns, RunsMeant, run_exact}
use circonus_agent.Plugins.Reserved.{AllAllowed, scan_files-AllAllowed}
use circonus_agent.Tests.Samples.{plain_lib, two_plugins, puts_out, one_file, plain_files}

abbrev none_builtin : Bytes → Bool
none_builtin id = false

abbrev directory : List FileInfo
directory = one_file ∷ record one_file { name = codes "write.sh" } ∷ []

-- Of the two files of the directory, only the one with an allowed name is taken up.
directory_scanned :
    ids_of plain_lib (scan_files plain_lib plain_files (codes "/p") none_builtin directory [])
    ≡ codes "b" ∷ []
unfolding scan_files
directory_scanned = refl

scan_files-AllAllowed_example :
    AllAllowed plain_lib none_builtin
      (scan_files plain_lib plain_files (codes "/p") none_builtin directory [])
scan_files-AllAllowed_example =
    scan_files-AllAllowed plain_lib plain_files (codes "/p") none_builtin directory [] tt

-- The list of plugins takes what the scan of a directory refuses.
list_takes_write :
    ids_of plain_lib (verify_files plain_lib plain_files (codes "/x/write.sh" ∷ []) [])
    ≡ codes "write" ∷ []
unfolding verify_files
list_takes_write = refl

run_exact_example :
    RunsMeant plain_lib
      (codes "a")
      (λ _. puts_out [])
      (codes "a`x")
      (lookup (codes "a`x") two_plugins.active)
      (lookup (codes "a`x") (run plain_lib two_plugins (codes "a") (λ _. puts_out [])).1.active)
    × Returns plain_lib
        (codes "a")
        two_plugins.active
        (run plain_lib two_plugins (codes "a") (λ _. puts_out [])).0
run_exact_example = run_exact plain_lib two_plugins (codes "a") (codes "a`x") (λ _. puts_out [])
