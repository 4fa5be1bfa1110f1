-- ===== src/Deployments/Fantom/Addresses.antt =====
-- The addresses that the deployments of Deployments.Fantom leave.
use code4rena_may.Base.{Bool, List, [], ◌∷◌}
use code4rena_may.Deployments.{Deployer, Market, with_save_and_verify}
use code4rena_may.Deployments.Registered.{
  Registers, IsDatabase, after-Registers, last-Registers, AllRegister, Entry,
}
use code4rena_may.Deployments.Fantom.{
  deploy_yearn_vault, get_yearn_vault, deploy_yearn_weth_vault, get_yearn_weth_vault,
  deploy_yearn_wbtc_vault, get_yearn_wbtc_vault, deploy_yearn_boo_vault, get_yearn_boo_vault,
  deploy_tomb_ftm_beefy_vault, get_tomb_ftm_beefy_vault, deploy_based_mimatic_beefy_vault,
  get_based_mimatic_beefy_vault, deploy_yearn_fbeets_vault, get_yearn_fbeets_vault,
  deploy_yearn_link_vault, get_yearn_link_vault, deploy_beefy_eth_vault, get_beefy_eth_vault,
  deploy_yearn_crv_vault, get_yearn_crv_vault, deploy_yearn_spell_vault, get_yearn_spell_vault,
}

module _ (D : Deployer) (I : IsDatabase D) (verify : Bool) where
  deploy_yearn_vault-Registers :
      Registers D "YEARN_VAULT" "YearnVault" (deploy_yearn_vault D verify)
  unfolding deploy_yearn_vault get_yearn_vault
  deploy_yearn_vault-Registers = after-Registers D (D.construct "YearnVault" []) (λ instance1.
      after-Registers D (with_save_and_verify D instance1 "YearnVaultImpl" [] verify) (λ impl.
        after-Registers D (D.addresses_provider) (λ u.
          after-Registers D (D.set_address_as_proxy "YEARN_VAULT" impl) (λ u.
            after-Registers D (D.set_address "YVWFTM" (D.param Market.fantom "YearnVaultFTM")) (λ u.
              after-Registers D
                (D.set_address "uniswapRouter" (D.param Market.fantom "UniswapRouter"))
                (λ u.
                  after-Registers D (D.set_address "WFTM" (D.param Market.fantom "WFTM"))
                    (λ u. last-Registers D I "YEARN_VAULT" "YearnVault")))))))

  deploy_yearn_weth_vault-Registers :
      Registers D "YEARN_WETH_VAULT" "YearnWETHVault" (deploy_yearn_weth_vault D verify)
  unfolding deploy_yearn_weth_vault get_yearn_weth_vault
  deploy_yearn_weth_vault-Registers =
      after-Registers D (D.construct "YearnWETHVault" []) (λ instance1.
        after-Registers D (with_save_and_verify D instance1 "YearnWETHVaultImpl" [] verify) (λ impl.
          after-Registers D (D.addresses_provider) (λ u.
            after-Registers D (D.set_address_as_proxy "YEARN_WETH_VAULT" impl) (λ u.
              after-Registers D (D.set_address "YVWETH" (D.param Market.fantom "YearnWETHVaultFTM"))
                (λ u.
                  after-Registers D (D.set_address "WETH" (D.param Market.fantom "WETH"))
                    (λ u. last-Registers D I "YEARN_WETH_VAULT" "YearnWETHVault"))))))

  deploy_yearn_wbtc_vault-Registers :
      Registers D "YEARN_WBTC_VAULT" "YearnWBTCVault" (deploy_yearn_wbtc_vault D verify)
  unfolding deploy_yearn_wbtc_vault get_yearn_wbtc_vault
  deploy_yearn_wbtc_vault-Registers =
      after-Registers D (D.construct "YearnWBTCVault" []) (λ instance1.
        after-Registers D (with_save_and_verify D instance1 "YearnWBTCVaultImpl" [] verify) (λ impl.
          after-Registers D (D.addresses_provider) (λ u.
            after-Registers D (D.set_address_as_proxy "YEARN_WBTC_VAULT" impl) (λ u.
              after-Registers D (D.set_address "YVWBTC" (D.param Market.fantom "YearnWBTCVaultFTM"))
                (λ u.
                  after-Registers D (D.set_address "WBTC" (D.param Market.fantom "WBTC"))
                    (λ u. last-Registers D I "YEARN_WBTC_VAULT" "YearnWBTCVault"))))))

  deploy_yearn_boo_vault-Registers :
      Registers D "YEARN_BOO_VAULT" "YearnBOOVault" (deploy_yearn_boo_vault D verify)
  unfolding deploy_yearn_boo_vault get_yearn_boo_vault
  deploy_yearn_boo_vault-Registers =
      after-Registers D (D.construct "YearnBOOVault" []) (λ instance1.
        after-Registers D (with_save_and_verify D instance1 "YearnBOOVaultImpl" [] verify) (λ impl.
          after-Registers D (D.addresses_provider) (λ u.
            after-Registers D (D.set_address_as_proxy "YEARN_BOO_VAULT" impl) (λ u.
              after-Registers D (D.set_address "YVBOO" (D.param Market.fantom "YearnBOOVaultFTM"))
                (λ u.
                  after-Registers D (D.set_address "BOO" (D.param Market.fantom "BOO"))
                    (λ u. last-Registers D I "YEARN_BOO_VAULT" "YearnBOOVault"))))))

  deploy_tomb_ftm_beefy_vault-Registers :
      Registers D "BEEFY_TOMB_FTM_VAULT" "TombFtmBeefyVault" (deploy_tomb_ftm_beefy_vault D verify)
  unfolding deploy_tomb_ftm_beefy_vault get_tomb_ftm_beefy_vault
  deploy_tomb_ftm_beefy_vault-Registers =
      after-Registers D (D.construct "TombFtmBeefyVault" []) (λ instance1.
        after-Registers D (with_save_and_verify D instance1 "TombFtmBeefyVaultImpl" [] verify)
          (λ impl. after-Registers D (D.addresses_provider) (λ u.
            after-Registers D (D.set_address_as_proxy "BEEFY_TOMB_FTM_VAULT" impl) (λ u.
              after-Registers D
                (D.set_address "mooTombTOMB-FTM" (D.param Market.fantom "BeefyVaultTOMB_FTM"))
                (λ u.
                  after-Registers D
                    (D.set_address "TOMB_FTM_LP" (D.param Market.fantom "TOMB_FTM_LP"))
                    (λ u.
                      after-Registers D (D.set_address "TOMB" (D.param Market.fantom "TOMB"))
                        (λ u. last-Registers D I "BEEFY_TOMB_FTM_VAULT" "TombFtmBeefyVault")))))))

  deploy_based_mimatic_beefy_vault-Registers :
      Registers D "BEEFY_BASED_MIMATIC_VAULT" "BasedMiMaticBeefyVault"
        (deploy_based_mimatic_beefy_vault D verify)
  unfolding deploy_based_mimatic_beefy_vault get_based_mimatic_beefy_vault
  deploy_based_mimatic_beefy_vault-Registers =
      after-Registers D (D.construct "BasedMimaticBeefyVault" []) (λ instance1.
        after-Registers D (with_save_and_verify D instance1 "BasedMiMaticBeefyVaultImpl" [] verify)
          (λ impl. after-Registers D (D.addresses_provider) (λ u.
            after-Registers D (D.set_address_as_proxy "BEEFY_BASED_MIMATIC_VAULT" impl) (λ u.
              after-Registers D
                (D.set_address "mooTombBASED-MIMATIC"
                  (D.param Market.fantom "BeefyVaultBASED_MIMATIC"))
                (λ u.
                  after-Registers D
                    (D.set_address "BASED_MIMATIC_LP" (D.param Market.fantom "BASED_MIMATIC_LP"))
                    (λ u.
                      after-Registers D (D.set_address "BASED" (D.param Market.fantom "BASED"))
                        (λ u.
                          last-Registers D I "BEEFY_BASED_MIMATIC_VAULT"
                            "BasedMiMaticBeefyVault")))))))

  deploy_yearn_fbeets_vault-Registers :
      Registers D "YEARN_FBEETS_VAULT" "YearnFBEETSVault" (deploy_yearn_fbeets_vault D verify)
  unfolding deploy_yearn_fbeets_vault get_yearn_fbeets_vault
  deploy_yearn_fbeets_vault-Registers =
      after-Registers D (D.construct "YearnFBEETSVault" []) (λ instance1.
        after-Registers D (with_save_and_verify D instance1 "YearnFBEETSVaultImpl" [] verify)
          (λ impl. after-Registers D (D.addresses_provider) (λ u.
            after-Registers D (D.set_address_as_proxy "YEARN_FBEETS_VAULT" impl) (λ u.
              after-Registers D
                (D.set_address "YVFBEETS" (D.param Market.fantom "YearnFBEETSVaultFTM"))
                (λ u.
                  after-Registers D (D.set_address "fBEETS" (D.param Market.fantom "fBEETS")) (λ u.
                    after-Registers D (D.set_address "BEETS" (D.param Market.fantom "BEETS"))
                      (λ u. last-Registers D I "YEARN_FBEETS_VAULT" "YearnFBEETSVault")))))))

  deploy_yearn_link_vault-Registers :
      Registers D "YEARN_LINK_VAULT" "YearnLINKVault" (deploy_yearn_link_vault D verify)
  unfolding deploy_yearn_link_vault get_yearn_link_vault
  deploy_yearn_link_vault-Registers =
      after-Registers D (D.construct "YearnLINKVault" []) (λ instance1.
        after-Registers D (with_save_and_verify D instance1 "YearnLINKVaultImpl" [] verify) (λ impl.
          after-Registers D (D.addresses_provider) (λ u.
            after-Registers D (D.set_address_as_proxy "YEARN_LINK_VAULT" impl) (λ u.
              after-Registers D (D.set_address "YVLINK" (D.param Market.fantom "YearnLINKVaultFTM"))
                (λ u.
                  after-Registers D (D.set_address "LINK" (D.param Market.fantom "LINK"))
                    (λ u. last-Registers D I "YEARN_LINK_VAULT" "YearnLINKVault"))))))

  deploy_beefy_eth_vault-Registers :
      Registers D "BEEFY_ETH_VAULT" "BeefyETHVault" (deploy_beefy_eth_vault D verify)
  unfolding deploy_beefy_eth_vault get_beefy_eth_vault
  deploy_beefy_eth_vault-Registers =
      after-Registers D (D.construct "BeefyETHVault" []) (λ instance1.
        after-Registers D (with_save_and_verify D instance1 "BeefyETHVaultImpl" [] verify) (λ impl.
          after-Registers D (D.addresses_provider) (λ u.
            after-Registers D (D.set_address_as_proxy "BEEFY_ETH_VAULT" impl) (λ u.
              after-Registers D (D.set_address "MOOWETH" (D.param Market.fantom "BeefyETHVault"))
                (λ u.
                  after-Registers D (D.set_address "WETH" (D.param Market.fantom "WETH"))
                    (λ u. last-Registers D I "BEEFY_ETH_VAULT" "BeefyETHVault"))))))

  deploy_yearn_crv_vault-Registers :
      Registers D "YEARN_CRV_VAULT" "YearnCRVVault" (deploy_yearn_crv_vault D verify)
  unfolding deploy_yearn_crv_vault get_yearn_crv_vault
  deploy_yearn_crv_vault-Registers =
      after-Registers D (D.construct "YearnCRVVault" []) (λ instance1.
        after-Registers D (with_save_and_verify D instance1 "YearnCRVVaultImpl" [] verify) (λ impl.
          after-Registers D (D.addresses_provider) (λ u.
            after-Registers D (D.set_address_as_proxy "YEARN_CRV_VAULT" impl) (λ u.
              after-Registers D (D.set_address "YVCRV" (D.param Market.fantom "YearnCRVVaultFTM"))
                (λ u.
                  after-Registers D (D.set_address "CRV" (D.param Market.fantom "CRV"))
                    (λ u. last-Registers D I "YEARN_CRV_VAULT" "YearnCRVVault"))))))

  deploy_yearn_spell_vault-Registers :
      Registers D "YEARN_SPELL_VAULT" "YearnSPELLVault" (deploy_yearn_spell_vault D verify)
  unfolding deploy_yearn_spell_vault get_yearn_spell_vault
  deploy_yearn_spell_vault-Registers =
      after-Registers D (D.construct "YearnSPELLVault" []) (λ instance1.
        after-Registers D (with_save_and_verify D instance1 "YearnSPELLVaultImpl" [] verify)
          (λ impl. after-Registers D (D.addresses_provider) (λ u.
            after-Registers D (D.set_address_as_proxy "YEARN_SPELL_VAULT" impl) (λ u.
              after-Registers D
                (D.set_address "YVSPELL" (D.param Market.fantom "YearnSPELLVaultFTM"))
                (λ u.
                  after-Registers D (D.set_address "SPELL" (D.param Market.fantom "SPELL"))
                    (λ u. last-Registers D I "YEARN_SPELL_VAULT" "YearnSPELLVault"))))))

abbrev pub entries : (D : Deployer) → Bool → List (Entry D)
entries D verify =
    ("YEARN_VAULT", "YearnVault", deploy_yearn_vault D verify)
    ∷ ("YEARN_WETH_VAULT", "YearnWETHVault", deploy_yearn_weth_vault D verify)
    ∷ ("YEARN_WBTC_VAULT", "YearnWBTCVault", deploy_yearn_wbtc_vault D verify)
    ∷ ("YEARN_BOO_VAULT", "YearnBOOVault", deploy_yearn_boo_vault D verify)
    ∷ ("BEEFY_TOMB_FTM_VAULT", "TombFtmBeefyVault", deploy_tomb_ftm_beefy_vault D verify)
    ∷ (
      "BEEFY_BASED_MIMATIC_VAULT",
      "BasedMiMaticBeefyVault",
      deploy_based_mimatic_beefy_vault D verify,
    )
    ∷ ("YEARN_FBEETS_VAULT", "YearnFBEETSVault", deploy_yearn_fbeets_vault D verify)
    ∷ ("YEARN_LINK_VAULT", "YearnLINKVault", deploy_yearn_link_vault D verify)
    ∷ ("BEEFY_ETH_VAULT", "BeefyETHVault", deploy_beefy_eth_vault D verify)
    ∷ ("YEARN_CRV_VAULT", "YearnCRVVault", deploy_yearn_crv_vault D verify)
    ∷ ("YEARN_SPELL_VAULT", "YearnSPELLVault", deploy_yearn_spell_vault D verify)
    ∷ []

pub entries-AllRegister :
    (D : Deployer) → IsDatabase D → (verify : Bool) → AllRegister D (entries D verify)
entries-AllRegister D I verify = (
  deploy_yearn_vault-Registers D I verify,
  (
    deploy_yearn_weth_vault-Registers D I verify,
    (
      deploy_yearn_wbtc_vault-Registers D I verify,
      (
        deploy_yearn_boo_vault-Registers D I verify,
        (
          deploy_tomb_ftm_beefy_vault-Registers D I verify,
          (
            deploy_based_mimatic_beefy_vault-Registers D I verify,
            (
              deploy_yearn_fbeets_vault-Registers D I verify,
              (
                deploy_yearn_link_vault-Registers D I verify,
                (
                  deploy_beefy_eth_vault-Registers D I verify,
                  (
                    deploy_yearn_crv_vault-Registers D I verify,
                    (deploy_yearn_spell_vault-Registers D I verify, tt),
                  ),
                ),
              ),
            ),
          ),
        ),
      ),
    ),
  ),
)
