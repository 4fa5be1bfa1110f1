-- ===== src/Deployments/Mocks/Saved.antt =====
-- What the deployments of Deployments.Mocks save is what their getters find.
use code4rena_may.Base.{String, Bool, List, [], ◌∷◌}
use code4rena_may.Deployments.{Deployer}
use code4rena_may.Deployments.Saved.{IsArchive, Pair, AllSaved, saved}
use code4rena_may.Deployments.Mocks.{
  deploy_mock_moo_based_mimatic, deploy_mock_moo_tomb_ftm, deploy_mock_moo_tomb_mimatic,
  deploy_mock_wbtc_for_ftm, deploy_mock_yvboo, deploy_mock_yvwbtc, deploy_mock_yvweth,
  deploy_mock_yvwftm, deploy_weth_mocked, get_mock_moo_based_mimatic, get_mock_moo_tomb_ftm,
  get_mock_moo_tomb_mimatic, get_mock_wbtc_for_ftm, get_mock_yvboo, get_mock_yvwbtc,
  get_mock_yvweth, get_mock_yvwftm, get_weth_mocked,
}

module _ (D : Deployer) (one : String) (args : List String) (verify : Bool) where
  abbrev pub pairs : List (Pair D)
  pairs =
      (deploy_weth_mocked D verify, get_weth_mocked D)
      ∷ (deploy_mock_yvwftm D args verify, get_mock_yvwftm D)
      ∷ (deploy_mock_yvweth D args verify, get_mock_yvweth D)
      ∷ (deploy_mock_yvwbtc D args verify, get_mock_yvwbtc D)
      ∷ (deploy_mock_yvboo D args verify, get_mock_yvboo D)
      ∷ (deploy_mock_wbtc_for_ftm D args verify, get_mock_wbtc_for_ftm D)
      ∷ (deploy_mock_moo_tomb_ftm D args verify, get_mock_moo_tomb_ftm D)
      ∷ (deploy_mock_moo_tomb_mimatic D args verify, get_mock_moo_tomb_mimatic D)
      ∷ (deploy_mock_moo_based_mimatic D args verify, get_mock_moo_based_mimatic D)
      ∷ []

  pub pairs-AllSaved : IsArchive D → AllSaved D pairs
  unfolding deploy_mock_moo_based_mimatic deploy_mock_moo_tomb_ftm deploy_mock_moo_tomb_mimatic
      deploy_mock_wbtc_for_ftm deploy_mock_yvboo deploy_mock_yvwbtc deploy_mock_yvweth
      deploy_mock_yvwftm deploy_weth_mocked get_mock_moo_based_mimatic get_mock_moo_tomb_ftm
      get_mock_moo_tomb_mimatic get_mock_wbtc_for_ftm get_mock_yvboo get_mock_yvwbtc get_mock_yvweth
      get_mock_yvwftm get_weth_mocked
  pairs-AllSaved I = (
    saved D I "WETHMocked" verify _ _,
    (
      saved D I "MockyvWFTM" verify _ _,
      (
        saved D I "MockyvWETH" verify _ _,
        (
          saved D I "MockyvWBTC" verify _ _,
          (
            saved D I "MockyvBOO" verify _ _,
            (
              saved D I "MockWBTCForFTM" verify _ _,
              (
                saved D I "MockMooTOMBFTM" verify _ _,
                (
                  saved D I "MockMooTOMBMIMATIC" verify _ _,
                  (saved D I "MockMooBASEDMIMATIC" verify _ _, tt),
                ),
              ),
            ),
          ),
        ),
      ),
    ),
  )
