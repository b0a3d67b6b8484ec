-- ===== src/Mobile/App/Splash.antt =====
-- What SplashScreen.tsx renders: the logo, the name, and no click.
use wow_vpn.Common.{[], ◌∷◌}
use wow_vpn.View.{Node, text, element, nodes}

unfoldable pub splash_view : {M : Type 0} → Node M
splash_view = element "div" [] (
    nodes (
      element "motion.div" [] (
        nodes (
          element "motion.div" [] (
            nodes (
              element "div" [] (
                nodes (
                  element "span" [] (nodes (text "S" ∷ element "motion.div" [] (nodes []) ∷ []))
                  ∷ []))
              ∷ []))
          ∷ element "motion.div" [] (
              nodes (
                element "span" [] (nodes (text "Shade" ∷ []))
                ∷ element "span" [] (nodes (text "VPN" ∷ []))
                ∷ []))
          ∷ []))
      ∷ element "motion.div" [] (nodes (text "Powered by ShadeVPN" ∷ []))
      ∷ []))
