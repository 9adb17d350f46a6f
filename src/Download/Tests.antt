-- ===== src/Download/Tests.antt =====
-- Runs of the download workflow at fixed inputs.
use research_monitor.Base.{◌≡◌, refl}
use research_monitor.Text.{codes}
use research_monitor.Download.Sanitize.{sanitize}

sanitize_test :
    sanitize (codes "open /var/lib/x.pdf: Bearer abc Token = xyz, a/b /c")
    ≡ codes "open [PATH]: Bearer [REDACTED] [REDACTED] a/b /c"
unfolding sanitize
sanitize_test = refl
