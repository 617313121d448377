-- ===== src/Pages/Tests.antt =====
-- Runs of kern/arch/x86_64/obj/page.c.
use untitled_bare_metal.Base.{arith}
use untitled_bare_metal.Pages.Map.{Answers, page_map-Answers}
use untitled_bare_metal.Samples.{sample_kernel}

page_map-Answers_example : Answers 64 32 0x40_0000 2 sample_kernel
page_map-Answers_example =
    page_map-Answers 64 32 0x40_0000 2 sample_kernel (omega arith)
      (record { thread = omega arith; buffer = omega arith })
