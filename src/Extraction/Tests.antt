-- ===== src/Extraction/Tests.antt =====
-- Runs of the normaliser at fixed inputs.
use research_monitor.Base.{◌≡◌, refl, true, false}
use research_monitor.Text.{codes}
use research_monitor.Extraction.Markdown.{is_table_separator}
use research_monitor.Extraction.Normalize.{normalize, rewrite_math_delimiters}

math_test : rewrite_math_delimiters (codes "a \\(x\\) b \\[y\\] \\(z") ≡ codes "a $x$ b $$y$$ \\(z"
unfolding rewrite_math_delimiters
math_test = refl

separator_test : is_table_separator (codes " | :---: | --- |  ") ≡ true
unfolding is_table_separator
separator_test = refl

separator_one_cell : is_table_separator (codes "| --- |") ≡ false
unfolding is_table_separator
separator_one_cell = refl

normalize_test :
    normalize
      (codes
        "# T  \nab c\n\n| x | y |\n|---|---|\n| 1 | 2 |\nFigure 1: z\n![a](b) \n\nend\n## References\n[1]")
      (codes "f")
    ≡ record { title = codes "T"; body_markdown = codes "# T  \nab c\n\nend"; word_count = 5 }
unfolding normalize
normalize_test = refl
